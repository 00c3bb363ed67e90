-- ===== src/Examples/Logging.antt =====
-- internal/logging: runs of the guard against floods and of the redaction.
use qoqtun.Prelude.{◌≡◌, refl, none, true, false, List, [], ◌∷◌, ℕ, min, Bytes, codes, bytes_eq}
use qoqtun.Prelude.Maps.{lookup}
use qoqtun.Logging.Redact.{Attr, string_value, with_attrs, handle, is_hidden}
use qoqtun.Logging.Sample.{Sampler}
use qoqtun.Logging.Sample.Bounds.{passes, occurrences, within, run-passes}

abbrev guard : Sampler
guard = record { window = 60; max = 1; drop_every = 2; seen = []; last_prune = 0 }

abbrev flood : List (Bytes × ℕ)
flood = (codes "full", 100) ∷ (codes "other", 110) ∷ (codes "full", 120) ∷ []

not_counted : lookup (codes "full") guard.seen ≡ none
unfolding lookup
not_counted = refl

in_time : within 100 guard.window flood ≡ true
unfolding within
in_time = refl

run-passes_example :
    passes (codes "full") flood guard ≡ min (occurrences (codes "full") flood) guard.max
run-passes_example = run-passes flood (codes "full") guard 100 not_counted in_time

abbrev password : Attr ℕ
password = record { key = codes "password"; shown = string_value (codes "hunter2") }

-- The attributes of a record are redacted, those of the handler are not.
handler_shows :
    (is_hidden (handle [] (password ∷ [])) ≡ true)
    × (is_hidden (handle (with_attrs [] (password ∷ [])) []) ≡ false)
unfolding handle with_attrs is_hidden qoqtun.Client.Errors.contains_any
    qoqtun.Client.Errors.contains qoqtun.Prelude.Strings.to_lower qoqtun.Prelude.Strings.lower_join
    qoqtun.Prelude.Strings.has_prefix qoqtun.Prelude.bytes_beq
handler_shows = (refl, refl)
