-- ===== src/Control/Run.antt =====
-- internal/control: the control plane as a sequence of events, in the order in which its handlers
-- get at the shared state.
pub mod Table
pub mod Managers
pub mod Drops
pub mod Hosts
pub mod Handlers
pub mod Conns
pub mod Ends
pub mod Stale
pub mod Offers
pub mod Routed
use qoqtun.Prelude.{ℕ, Bool, List, [], ◌∷◌, Bytes}
use qoqtun.Prelude.Int.{ℤ}
use qoqtun.Net.{Net}
use qoqtun.Tunnel.Manager.{Tunnel}
use qoqtun.Tunnel.Sniff.{Stream}
use qoqtun.Control.Server.{Limits, Server, Outside}
use qoqtun.Control.PublicConns.{on_open, handle_vhost_conn}
use qoqtun.Control.DataConns.{splice_done, channel_closed}
use qoqtun.Control.Connection.{First, Message, handle_conn, read_message, end_control}

pub data Event : Type 0 where
  -- A connection with its host, its peer, whether that is revoked, its first frame and the time.
  connected : ℕ → Bytes → Bytes → Bool → First → ℕ → Event
  -- A message of a client, and whether the limit of its connection admits it.
  message : ℕ → Bytes → Message → Bool → Outside → Event
  ended : ℕ → Bytes → Bytes → ℕ → Event
  public_conn : ℕ → Bytes → Tunnel → ℕ → Bytes → Outside → Event
  vhost_conn : ℕ → Stream → Outside → Event
  spliced : Bytes → Bytes → Bytes → ℤ → ℤ → ℕ → Event
  channel_lost : Bytes → Tunnel → ℕ → Outside → Event

module _ (lim : Limits) (net : Net) where
  unfoldable pub step : Event → Server lim.Limiter → Server lim.Limiter
  step (connected c host peer revoked first now) s = handle_conn c host peer revoked first now s
  step (message c id m within w) s = (read_message lim net c id m within w s).1
  step (ended c host id now) s = end_control c host id now s
  step (public_conn c id t public ip w) s = on_open lim c id t public ip w s
  step (vhost_conn public stream w) s = handle_vhost_conn public stream w s
  step (spliced id t conn_id rx tx now) s = splice_done id t conn_id rx tx now s
  step (channel_lost id t conn w) s = channel_closed id t conn w s

  unfoldable pub run : List Event → Server lim.Limiter → Server lim.Limiter
  run [] s = s
  run (e ∷ es) s = run es (step e s)
