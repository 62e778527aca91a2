-- ===== src/Transport/Direct.antt =====
-- transport/direct.go: a connection that is made once.
pub mod Once
use goindustrial.Base.{Bool, true, false, not, ◌&&◌, ◌||◌, if◌then◌else◌, Option, none}
use goindustrial.Base.{
  Go, Error, ok, err, panic, transport_closed, transport_was_reset, connect_failed,
}
use goindustrial.Base.Stateful.{Exec}
use goindustrial.Transport.{Comparable, Dialer, Config, fire_on_connect, fire_on_disconnect}

-- `DirectTransport`, with the state that it reaches
pub record DirectTransport (W C : Type 0) : Type 0 where
  pub conn : C
  pub active : Bool
  pub closed : Bool
  pub world : W

module _ {W C : Type 0} (comparable : Comparable C) (dialer : Dialer W C) (cfg : Config W) where
  unfoldable pub after_connect : W × Go C → W × Go (DirectTransport W C)
  after_connect (w, ok c) =
      let w' = fire_on_connect cfg w in
      (w', ok (record { conn = c; active = true; closed = false; world = w' }))
  after_connect (w, err e) = (w, err (connect_failed e))
  after_connect (w, panic) = (w, panic)

  unfoldable pub new_direct_transport : W → W × Go (DirectTransport W C)
  unfolding after_connect
  new_direct_transport w = after_connect (dialer.connect w)

  unfoldable pub get_conn : DirectTransport W C → Go C
  get_conn d =
      if d.closed
      then err transport_closed
      else if d.active
      then ok d.conn
      else err transport_was_reset

  unfoldable pub peek : DirectTransport W C → Bool
  peek d = d.active && not d.closed

  unfoldable pub shut_conn : Bool → DirectTransport W C → DirectTransport W C × Option Error
  shut_conn closed d =
      let (w, e) = dialer.shut d.conn d.world in
      (
        record {
          conn = comparable.zero_value;
          active = false;
          closed = closed;
          world = fire_on_disconnect cfg e w;
        },
        e,
      )

  unfoldable pub reset : C → DirectTransport W C → DirectTransport W C
  unfolding shut_conn
  reset stale d =
      if not d.active || not (comparable.same d.conn stale) then d else (shut_conn d.closed d).0

  unfoldable pub close : DirectTransport W C → DirectTransport W C × Option Error
  unfolding shut_conn
  close d =
      if d.closed
      then (d, none)
      else if d.active
      then shut_conn true d
      else (record d { closed = true }, none)
