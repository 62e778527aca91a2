-- ===== src/Transport/Reconnecting.antt =====
-- transport/reconnecting.go: a connection that is made when it is asked for, and again after it was
-- reset. A function here is what the source does under one hold of the lock; `Conn` is its fast path
-- and then, if that found no connection, its slow path.
pub mod Owner
pub mod Final
pub mod Retry
use goindustrial.Base.{Bool, true, false, not, ◌&&◌, ◌||◌, if◌then◌else◌, Option, none, some, List}
use goindustrial.Base.{Go, Error, ok, err, panic, transport_closed, dial_failed}
use goindustrial.Base.Stateful.{Exec}
use goindustrial.Transport.{
  Comparable, Dialer, Config, apply_options, fire_on_connect, fire_on_disconnect,
}

-- `ReconnectingTransport`, with the state that it reaches
pub record ReconnectingTransport (W C : Type 0) : Type 0 where
  pub conn : C
  pub closed : Bool
  pub world : W

module _ {W C : Type 0} (comparable : Comparable C) (dialer : Dialer W C) (cfg : Config W) where
  abbrev pub has_no_conn : ReconnectingTransport W C → Bool
  has_no_conn r = comparable.same r.conn comparable.zero_value

  unfoldable pub new_reconnecting_transport : W → ReconnectingTransport W C
  new_reconnecting_transport w = record { conn = comparable.zero_value; closed = false; world = w }

  unfoldable pub fast_path : ReconnectingTransport W C → Option (Go C)
  fast_path r =
      if r.closed
      then some (err transport_closed)
      else if has_no_conn r
      then none
      else some (ok r.conn)

  unfoldable pub after_connect :
      ReconnectingTransport W C → W × Go C → ReconnectingTransport W C × Go C
  after_connect r (w, ok c) =
      (record { conn = c; closed = r.closed; world = fire_on_connect cfg w }, ok c)
  after_connect r (w, err e) = (record r { world = w }, err e)
  after_connect r (w, panic) = (record r { world = w }, panic)

  unfoldable pub slow_path : Exec (ReconnectingTransport W C) C
  unfolding after_connect
  slow_path r =
      if r.closed
      then (r, err transport_closed)
      else if has_no_conn r
      then after_connect r (dialer.connect r.world)
      else (r, ok r.conn)

  unfoldable pub after_fast_path :
      Option (Go C) → ReconnectingTransport W C → ReconnectingTransport W C × Go C
  unfolding slow_path
  after_fast_path (some result) r = (r, result)
  after_fast_path none r = slow_path r

  unfoldable pub get_conn : Exec (ReconnectingTransport W C) C
  unfolding fast_path after_fast_path
  get_conn r = after_fast_path (fast_path r) r

  unfoldable pub peek : ReconnectingTransport W C → Bool
  peek r = not r.closed && not (has_no_conn r)

  -- The call of the closer, and the callbacks.
  unfoldable pub shut_conn :
      Bool → ReconnectingTransport W C → ReconnectingTransport W C × Option Error
  shut_conn closed r =
      let (w, e) = dialer.shut r.conn r.world in
      (
        record {
          conn = comparable.zero_value;
          closed = closed;
          world = fire_on_disconnect cfg e w;
        },
        e,
      )

  unfoldable pub reset : C → ReconnectingTransport W C → ReconnectingTransport W C
  unfolding shut_conn
  reset stale r =
      if has_no_conn r || not (comparable.same r.conn stale) then r else (shut_conn r.closed r).0

  unfoldable pub close : ReconnectingTransport W C → ReconnectingTransport W C × Option Error
  unfolding shut_conn
  close r =
      if r.closed
      then (r, none)
      else if has_no_conn r
      then (record r { closed = true }, none)
      else shut_conn true r

  -- `DialReconnectingTransport`: an error leaves no transport behind.
  unfoldable pub or_dial_failed :
      ReconnectingTransport W C × Go C → W × Go (ReconnectingTransport W C)
  or_dial_failed (r, ok c) = (r.world, ok r)
  or_dial_failed (r, err e) = (r.world, err (dial_failed e))
  or_dial_failed (r, panic) = (r.world, panic)

  unfoldable pub dial_reconnecting_transport : W → W × Go (ReconnectingTransport W C)
  unfolding or_dial_failed get_conn new_reconnecting_transport
  dial_reconnecting_transport w = or_dial_failed (get_conn (new_reconnecting_transport w))
