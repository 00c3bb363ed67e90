-- ===== src/Control/Run/Stale.antt =====
-- internal/control: what the end of a connection leaves behind, or takes from another.
use qoqtun.Prelude.{
  ℕ, suc, ◌≡◌, refl, true, false, Option, none, some, List, [], ◌∷◌, arith, ◌==◌, map, Bytes,
  bytes_eq, nat_eq, Bool-cases, Option-cases, inl, inr, ap, ◌∙◌, ==_refl, ◌⊎◌,
}
use qoqtun.Prelude.Int.{ℤ, lez, pos, int_eq}
use qoqtun.Prelude.Maps.{Map, lookup, insert, delete, lookup-insert_self, lookup-delete_self}
use qoqtun.Protocol.Messages.{ClientHello}
use qoqtun.Protocol.Validate.{validate_client_hello}
use qoqtun.Protocol.Frame.{protocol_version}
use qoqtun.Session
use qoqtun.Session.{Session}
use qoqtun.Tunnel.Manager.{Tunnel, Manager, all_tunnels, ports_of, unregister_all, unregister_each}
use qoqtun.Tunnel.Vhost.{Entry}
use qoqtun.Tunnel.Vhost
use qoqtun.Control.HalfOpen
use qoqtun.Control.Server.{Server, manager_in, cleanup_client, close_conn}
use qoqtun.Control.Connection.{
  replace_session, join, welcome, greet, new_session, release_tunnels, reserve_ports, clean_up,
  end_control, handle_hello, handle_shutdown, kick,
}
use qoqtun.Control.Run.Table.{manager_in-some}
use qoqtun.Control.Run.Managers.{unregister-tunnels}
use qoqtun.Control.Run.Ends.{release_tunnels-managers}

unregister_each-absent :
    (ids : List Bytes) (j : Bytes) (m : Manager)
    → lookup j m.tunnels ≡ none
    → lookup j (unregister_each ids m).tunnels ≡ none
unfolding unregister_each
unregister_each-absent [] j m h = h
unregister_each-absent (id ∷ ids) j m h =
    unregister_each-absent ids j _ (ground (arith, unregister-tunnels m id j))

-- Each tunnel whose id is in the list is gone.
unregister_each-gone :
    (ts : Map Bytes Tunnel) (j : Bytes) (t : Tunnel) (m : Manager)
    → lookup j ts ≡ some t
    → lookup j (unregister_each (map (λ e. e.0) ts) m).tunnels ≡ none
unfolding unregister_each lookup
unregister_each-gone [] j t m h = ground arith
unregister_each-gone ((i, s) ∷ ts) j t m h = elim (Bool-cases (i == j)) [
  | inl here ↦
      unregister_each-absent (map (λ e. e.0) ts) j _ (ground (arith, unregister-tunnels m i j))
  | inr there ↦ unregister_each-gone ts j t _ (rw there at h)
]

empty_of_absent : (m : Map Bytes Tunnel) → ((j : Bytes) → lookup j m ≡ none) → m ≡ []
unfolding lookup
empty_of_absent [] h = refl
empty_of_absent ((j, t) ∷ m) h = ground (arith, h j, ==_refl j)

pub unregister_all-tunnels : (m : Manager) → (unregister_all m).tunnels ≡ []
unfolding unregister_all
unregister_all-tunnels m = empty_of_absent (unregister_all m).tunnels absent
  where
    absent : (j : Bytes) → lookup j (unregister_all m).tunnels ≡ none
    absent j = elim (Option-cases (lookup j m.tunnels)) [
      | inl miss ↦ unregister_each-absent (map (λ e. e.0) m.tunnels) j m miss
      | inr (t, hit) ↦ unregister_each-gone m.tunnels j t m hit
    ]

pub manager_in-insert :
    (id : Bytes) (m : Manager) (ms : Map Bytes Manager) → manager_in id (insert id m ms) ≡ m
manager_in-insert id m ms = manager_in-some id (insert id m ms) m (lookup-insert_self id m ms)

register_free :
    (r : Session.Registry) (sess : Session)
    → lookup sess.client_id r ≡ none
    → Session.register r sess ≡ Session.registered (insert sess.client_id sess r)
unfolding Session.register
register_free r sess h = rw (Session.register, h) refl

register_taken :
    (r : Session.Registry) (sess old : Session)
    → lookup sess.client_id r ≡ some old
    → Session.register r sess ≡ Session.exists
unfolding Session.register
register_taken r sess old h = rw (Session.register, h) refl

try_acquire-count :
    (host : Bytes) (limit : ℤ) (h : HalfOpen.HalfOpenTracker)
    → (HalfOpen.try_acquire host limit h).0 ≡ true
    → HalfOpen.count (HalfOpen.try_acquire host limit h).1 host ≡ suc (HalfOpen.count h host)
unfolding HalfOpen.try_acquire HalfOpen.count
try_acquire-count host limit h e =
    ground (arith, lookup-insert_self host (suc (HalfOpen.count h host)) h)

module _ {Limiter : Type 0} where
  clean_up-managers :
      (id : Bytes) (now : ℕ) (s : Server Limiter)
      → (clean_up id now s).managers
        ≡ insert id (unregister_all (manager_in id s.managers)) s.managers
  unfolding clean_up cleanup_client
  clean_up-managers id now s =
      ap (λ ms. insert id (unregister_all (manager_in id s.managers)) ms)
        (release_tunnels-managers (all_tunnels (manager_in id s.managers)) (record s {
          reservations = reserve_ports (ports_of (manager_in id s.managers)) id now s.reservations;
        }))

  clean_up_bare :
      (id : Bytes) (now : ℕ) (s : Server Limiter)
      → (manager_in id s.managers).tunnels ≡ []
      → (clean_up id now s).hosts ≡ s.hosts
  unfolding clean_up cleanup_client all_tunnels release_tunnels
  clean_up_bare id now s e = rw (e, all_tunnels, release_tunnels) refl

  -- A client asks for a shutdown and its connection ends: in the state that this leaves, each host
  -- that it had in the routing table is still there, a registration of the host by any client is
  -- refused, and the host leads to no tunnel, since the client has none left.
  pub shutdown_strands :
      (c : ℕ) (host id name tunnel_id other : Bytes) (now : ℕ) (e : Entry) (s : Server Limiter)
      → lookup name s.hosts ≡ some e
      → e.client_id ≡ id
      → let s' = end_control c host id now (handle_shutdown id s) in
        (lookup name s'.hosts ≡ some e)
        × (Vhost.register s'.hosts name tunnel_id other ≡ none)
        × ((manager_in e.client_id s'.managers).tunnels ≡ [])
  unfolding end_control handle_shutdown Vhost.register
  shutdown_strands c host id name tunnel_id other now e s at own =
      let bare = unregister_all-tunnels (manager_in id s.managers) in
      let s1 : Server Limiter = record s {
        managers = insert id (unregister_all (manager_in id s.managers)) s.managers;
      } in
      let same = manager_in-insert id (unregister_all (manager_in id s.managers)) s.managers in
      let kept = clean_up_bare id now s1 (ap (λ m. m.tunnels) same ∙ bare) in
      (
        rw kept at,
        rw (kept, at) refl,
        rw (own, clean_up-managers id now s1, manager_in-insert)
            (unregister_all-tunnels (manager_in id s1.managers)),
      )

  join_new :
      (c : ℕ) (sess : Session) (s : Server Limiter)
      → lookup sess.client_id s.sessions ≡ none
      → join c sess s ≡ (true, record s { sessions = insert sess.client_id sess s.sessions })
  unfolding join
  join_new c sess s h = rw (join, register_free s.sessions sess h) refl

  join_old :
      (c : ℕ) (sess old : Session) (s : Server Limiter)
      → lookup sess.client_id s.sessions ≡ some old
      → join c sess s ≡ (
        true,
        record (kick old s) {
          sessions = insert sess.client_id sess (delete sess.client_id s.sessions);
        },
      )
  unfolding join replace_session Session.get Session.unregister kick
  join_old c sess old s h =
      let gone = lookup-delete_self sess.client_id s.sessions in
      rw
        (
          join,
          register_taken s.sessions sess old h,
          replace_session,
          Session.get,
          h,
          register_free (delete sess.client_id s.sessions) sess gone,
        )
        refl

  -- A session that joins is the registered one, and the handshake is still counted.
  join_lem :
      (c : ℕ) (sess : Session) (s : Server Limiter)
      → (lookup sess.client_id (join c sess s).1.sessions ≡ some sess)
        × ((join c sess s).1.half_open ≡ s.half_open)
  join_lem c sess s = elim (Option-cases (lookup sess.client_id s.sessions)) [
    | inl free ↦
        rw (join_new c sess s free) (lookup-insert_self sess.client_id sess s.sessions, refl)
    | inr (old, there) ↦ rw (join_old c sess old s there) (
      lookup-insert_self sess.client_id sess (delete sess.client_id s.sessions),
      unfold kick in refl,
    )
  ]

  greet_lem :
      (c : ℕ) (peer : Bytes) (h : Option ClientHello) (now : ℕ) (s : Server Limiter)
      → (greet c peer h now s).0 ≡ true
      → (lookup peer (greet c peer h now s).1.sessions ≡ some (new_session c peer now))
        × ((greet c peer h now s).1.half_open ≡ s.half_open)
  unfolding greet welcome
  greet_lem c peer none now s g = ground arith
  greet_lem c peer (some h) now s g =
      let j = join c (new_session c peer now) s in
      elim (Option-cases (validate_client_hello (some h))) [
        | inr (p, bad) ↦ ground arith
        | inl good ↦ elim (Bool-cases (h.client_id == peer)) [
          | inr other ↦ ground arith
          | inl own ↦ elim (Bool-cases (h.protocol_version == protocol_version)) [
            | inr old ↦ ground arith
            | inl new ↦ elim (Bool-cases j.0) [
              | inl on ↦ rw (greet, good, own, new, on) (join_lem c (new_session c peer now) s)
              | inr off ↦ ground arith
            ]
          ]
        ]
      ]

  -- A client connects anew, and its session is on. When the handler of an older connection of the
  -- client ends after that, the new session is no longer registered and the client's tunnels, those
  -- of the new session among them, are all removed.
  pub old_end_drops_new :
      (old new : ℕ) (host peer : Bytes) (h : Option ClientHello) (now later : ℕ)
      (s : Server Limiter)
      → (greet new peer h now s).0 ≡ true
      → let s' = (greet new peer h now s).1 in
        let s'' = end_control old host peer later s' in
        (lookup peer s'.sessions ≡ some (new_session new peer now))
        × (lookup peer s''.sessions ≡ none)
        × ((manager_in peer s''.managers).tunnels ≡ [])
  unfolding end_control Session.unregister
  old_end_drops_new old new host peer h now later s on =
      let s' = (greet new peer h now s).1 in
      (
        (greet_lem new peer h now s on).0,
        lookup-delete_self peer (clean_up peer later s').sessions,
        rw (clean_up-managers peer later s', manager_in-insert)
            (unregister_all-tunnels (manager_in peer s'.managers)),
      )

  full_hello :
      (c : ℕ) (host peer : Bytes) (h : Option ClientHello) (now : ℕ) (s : Server Limiter)
      → lez s.max_half_open (pos (HalfOpen.count s.half_open host)) ≡ true
      → handle_hello c host peer h now s ≡ close_conn c s
  unfolding handle_hello
  full_hello c host peer h now s full =
      let refused : (HalfOpen.try_acquire host s.max_half_open s.half_open).0 ≡ false =
        unfold HalfOpen.try_acquire in rw full refl in
      rw (handle_hello, refused) refl

  -- A control connection that is let on is counted among the half-open ones of its address from
  -- then on, and the next one of the address is closed, with nothing else changed, unless fewer are
  -- counted than the limit.
  pub hello_keeps_slot :
      (c c' : ℕ) (host peer peer' : Bytes) (h h' : Option ClientHello) (now now' : ℕ)
      (s : Server Limiter)
      → (HalfOpen.try_acquire host s.max_half_open s.half_open).0 ≡ true
      → (greet c peer h now
          (record s { half_open = (HalfOpen.try_acquire host s.max_half_open s.half_open).1 })).0
        ≡ true
      → let s' = handle_hello c host peer h now s in
        (HalfOpen.count s'.half_open host ≡ suc (HalfOpen.count s.half_open host))
        × ((handle_hello c' host peer' h' now' s' ≡ close_conn c' s')
            ⊎ (lez s'.max_half_open (pos (HalfOpen.count s'.half_open host)) ≡ false))
  unfolding handle_hello
  hello_keeps_slot c c' host peer peer' h h' now now' s room on =
      let a = HalfOpen.try_acquire host s.max_half_open s.half_open in
      let s' = handle_hello c host peer h now s in
      (
        rw (handle_hello, room, on)
            (ap (λ t. HalfOpen.count t host)
                (greet_lem c peer h now (record s { half_open = a.1 }) on).1
              ∙ try_acquire-count host s.max_half_open s.half_open room),
        elim (Bool-cases (lez s'.max_half_open (pos (HalfOpen.count s'.half_open host)))) [
          | inl full ↦ inl (full_hello c' host peer' h' now' s' full)
          | inr free ↦ inr free
        ],
      )
