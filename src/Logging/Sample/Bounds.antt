-- ===== src/Logging/Sample/Bounds.antt =====
-- internal/logging/sample.go: how many records of a message pass in a window.
use qoqtun.Prelude.{
  ℕ, suc, ◌+◌, ◌-◌, ◌≡◌, refl, min, Bool, true, false, ◌&&◌, none, some, List, [], ◌∷◌, ◌==◌,
  nat_eq, if◌then◌else◌, Bytes, bytes_eq, leb, ltb, arith, Bool-cases, inl, inr, bytes_beq_iff,
  ==_refl, ==_eq, ap, ◌∙◌,
}
use qoqtun.Prelude.Maps.{Map, lookup, retain, lookup-insert}
use qoqtun.Logging.Sample.{
  SampleState, Sampler, is_recent, prune, Line, passed, counted, line_of, handle,
}

abbrev is_passed : Line → Bool
is_passed passed = true
is_passed _ = false

-- How many records of the message are passed on, of records with their messages and times.
unfoldable pub passes : Bytes → List (Bytes × ℕ) → Sampler → ℕ
passes k [] s = 0
passes k ((key, now) ∷ es) s =
    let rest = passes k es (handle key now s).1 in
    if key == k && is_passed (handle key now s).0 then suc rest else rest

-- How many records of the message there are.
unfoldable pub occurrences : Bytes → List (Bytes × ℕ) → ℕ
occurrences k [] = 0
occurrences k ((key, now) ∷ es) = let rest = occurrences k es in if key == k then suc rest else rest

-- All times lie between the start and the end of a window.
unfoldable pub within : ℕ → ℕ → List (Bytes × ℕ) → Bool
within start window [] = true
within start window ((key, now) ∷ es) =
    leb start now && leb now (start + window) && within start window es

retain_kept :
    (p : Bytes → SampleState → Bool) (k : Bytes) (st : SampleState) (m : Map Bytes SampleState)
    → lookup k m ≡ some st
    → p k st ≡ true
    → lookup k (retain p m) ≡ some st
unfolding lookup retain
retain_kept p k st [] h t = h
retain_kept p k st ((j, v) ∷ m) h t =
    ground (arith, (bytes_beq_iff j k).0, retain_kept p k st m, ==_refl k)

retain_absent :
    (p : Bytes → SampleState → Bool) (k : Bytes) (m : Map Bytes SampleState)
    → lookup k m ≡ none
    → lookup k (retain p m) ≡ none
unfolding lookup retain
retain_absent p k [] h = h
retain_absent p k ((j, v) ∷ m) h = ground (arith, retain_absent p k m)

prune-kept :
    (k : Bytes) (st : SampleState) (now : ℕ) (s : Sampler)
    → lookup k s.seen ≡ some st
    → ltb s.window (now - st.first) ≡ false
    → lookup k (prune now s).seen ≡ some st
unfolding prune is_recent
prune-kept k st now s h recent = elim (Bool-cases (ltb (now - s.last_prune) s.window)) [
  | inl early ↦ rw (prune, early) h
  | inr due ↦ rw (prune, due) (retain_kept (is_recent s.window now) k st s.seen h (ground arith))
]

prune_absent :
    (k : Bytes) (now : ℕ) (s : Sampler)
    → lookup k s.seen ≡ none
    → lookup k (prune now s).seen ≡ none
unfolding prune
prune_absent k now s h = elim (Bool-cases (ltb (now - s.last_prune) s.window)) [
  | inl early ↦ rw (prune, early) h
  | inr due ↦ rw (prune, due) (retain_absent (is_recent s.window now) k s.seen h)
]

handle_still :
    (key : Bytes) (now : ℕ) (s : Sampler)
    → ((handle key now s).1.window ≡ s.window) × ((handle key now s).1.max ≡ s.max)
unfolding handle prune
handle_still key now s = elim (Bool-cases (ltb (now - s.last_prune) s.window)) [
  | inl early ↦ rw (prune, early) (refl, refl)
  | inr due ↦ rw (prune, due) (refl, refl)
]

handle-kept :
    (key k : Bytes) (now : ℕ) (st : SampleState) (s : Sampler)
    → lookup k s.seen ≡ some st
    → ltb s.window (now - st.first) ≡ false
    → lookup k (handle key now s).1.seen
      ≡ some (if key == k then record st { count = suc st.count } else st)
unfolding handle counted
handle-kept key k now st s h recent =
    let kept = prune-kept k st now s h recent in
    elim (Bool-cases (key == k)) [
      | inl own ↦
          rw (lookup-insert key k (counted key now (prune now s)) (prune now s).seen, own)
            (rw (==_eq key k own, counted, kept) refl)
      | inr other ↦
          rw (lookup-insert key k (counted key now (prune now s)) (prune now s).seen, other) kept
    ]

line_of-passed : (s : Sampler) (count : ℕ) → is_passed (line_of s count) ≡ leb count s.max
unfolding line_of
line_of-passed s count = ground arith

handle-line :
    (k : Bytes) (now : ℕ) (st : SampleState) (s : Sampler)
    → lookup k s.seen ≡ some st
    → ltb s.window (now - st.first) ≡ false
    → is_passed (handle k now s).0 ≡ leb (suc st.count) s.max
unfolding handle counted
handle-line k now st s h recent =
    rw (counted, prune-kept k st now s h recent)
      (line_of-passed (prune now s) (suc st.count)
        ∙ ap (λ m. leb (suc st.count) m) (handle_still k now s).1)

-- A message that has an entry passes as often as its count leaves room for.
kept_exact :
    (es : List (Bytes × ℕ)) (k : Bytes) (st : SampleState) (s : Sampler) (start : ℕ)
    → lookup k s.seen ≡ some st
    → leb start st.first ≡ true
    → within start s.window es ≡ true
    → passes k es s + min st.count s.max ≡ min (st.count + occurrences k es) s.max
unfolding within passes occurrences
kept_exact [] k st s start h after w = omega arith
kept_exact ((key, now) ∷ es) k st s start h after w =
    let s' = (handle key now s).1 in
    let (same_window, same_max) = handle_still key now s in
    let recent : ltb s.window (now - st.first) ≡ false = ground arith in
    let later : within start s'.window es ≡ true = rw same_window (ground arith) in
    let entry = handle-kept key k now st s h recent in
    elim (Bool-cases (key == k)) [
      | inl own ↦
          let st' : SampleState = record st { count = suc st.count } in
          let rest : passes k es s' + min (suc st.count) s'.max
              ≡ min (suc st.count + occurrences k es) s'.max =
            kept_exact es k st' s' start (rw own at entry) after later in
          let line : is_passed (handle key now s).0 ≡ leb (suc st.count) s.max =
            rw (==_eq key k own) (handle-line k now st s h recent) in
          ground (arith, rest, line, same_max, own)
      | inr other ↦
          let rest : passes k es s' + min st.count s'.max
              ≡ min (st.count + occurrences k es) s'.max =
            kept_exact es k st s' start (rw other at entry) after later in
          ground (arith, rest, same_max, other)
    ]

handle-fresh :
    (key k : Bytes) (now : ℕ) (s : Sampler)
    → lookup k s.seen ≡ none
    → lookup k (handle key now s).1.seen
      ≡ (if key == k then some (record { first = now; count = 1 }) else none)
unfolding handle counted
handle-fresh key k now s h =
    let absent = prune_absent k now s h in
    elim (Bool-cases (key == k)) [
      | inl own ↦
          rw (lookup-insert key k (counted key now (prune now s)) (prune now s).seen, own)
            (rw (==_eq key k own, counted, absent) refl)
      | inr other ↦
          rw (lookup-insert key k (counted key now (prune now s)) (prune now s).seen, other) absent
    ]

handle_first-line :
    (k : Bytes) (now : ℕ) (s : Sampler)
    → lookup k s.seen ≡ none
    → is_passed (handle k now s).0 ≡ leb 1 s.max
unfolding handle counted
handle_first-line k now s h =
    rw (counted, prune_absent k now s h)
      (line_of-passed (prune now s) 1 ∙ ap (λ m. leb 1 m) (handle_still k now s).1)

-- Of the records of a message that is not yet counted, in a time of one window at most, exactly the
-- first ones pass, as many as the limit allows.
pub run-passes :
    (es : List (Bytes × ℕ)) (k : Bytes) (s : Sampler) (start : ℕ)
    → lookup k s.seen ≡ none
    → within start s.window es ≡ true
    → passes k es s ≡ min (occurrences k es) s.max
unfolding within passes occurrences
run-passes [] k s start h w = ground arith
run-passes ((key, now) ∷ es) k s start h w =
    let s' = (handle key now s).1 in
    let (same_window, same_max) = handle_still key now s in
    let later : within start s'.window es ≡ true = rw same_window (ground arith) in
    let entry = handle-fresh key k now s h in
    elim (Bool-cases (key == k)) [
      | inl own ↦
          let st : SampleState = record { first = now; count = 1 } in
          let rest : passes k es s' + min 1 s'.max ≡ min (1 + occurrences k es) s'.max =
            kept_exact es k st s' start (rw own at entry) (ground arith) later in
          let line : is_passed (handle key now s).0 ≡ leb 1 s.max =
            rw (==_eq key k own) (handle_first-line k now s h) in
          ground (arith, rest, line, same_max, own)
      | inr other ↦
          let rest : passes k es s' ≡ min (occurrences k es) s'.max =
            run-passes es k s' start (rw other at entry) later in
          ground (arith, rest, same_max, other)
    ]
