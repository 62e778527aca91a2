-- ===== src/Transport/Reconnecting/Retry.antt =====
-- Calls of `Conn` while the peer cannot be reached, and after.
use goindustrial.Base.{ℕ, zero, suc, ◌≡◌, refl, ap, ◌∙◌, true, false}
use goindustrial.Base.{Error, ok, err}
use goindustrial.Transport.{Comparable, Dialer, Config, fire_on_connect}
use goindustrial.Transport.Reconnecting.{
  ReconnectingTransport, has_no_conn, after_connect, get_conn,
}
use goindustrial.Transport.Reconnecting.Final.{get_conn_waiting}

module _ {W C : Type 0} (comparable : Comparable C) (dialer : Dialer W C) (cfg : Config W) where
  -- The connector fails a number of times, and then makes a connection.
  pub data Outage : ℕ → W → W → C → Type 0 where
    over : {w w' : W} (c : C) → dialer.connect w ≡ (w', ok c) → Outage 0 w w' c
    outage :
        {n : ℕ} {w w' w'' : W} {c : C} (e : Error)
        → dialer.connect w ≡ (w', err e)
        → Outage n w' w'' c
        → Outage (suc n) w w'' c

  -- The transport after a number of calls of `Conn`.
  abbrev pub after_calls : ℕ → ReconnectingTransport W C → ReconnectingTransport W C
  after_calls zero r = r
  after_calls (suc n) r = after_calls n (get_conn comparable dialer cfg r).0

  abbrev pub Waiting : ReconnectingTransport W C → Type 0
  Waiting r = (r.closed ≡ false) × (has_no_conn comparable dialer cfg r ≡ true)

  pub get_conn_connects :
      (r : ReconnectingTransport W C) {w : W} (c : C)
      → Waiting r
      → dialer.connect r.world ≡ (w, ok c)
      → get_conn comparable dialer cfg r
        ≡ (record { conn = c; closed = r.closed; world = fire_on_connect cfg w }, ok c)
  unfolding after_connect
  get_conn_connects r c (o, v) e = get_conn_waiting comparable dialer cfg r o v ∙ rw e refl

  pub get_conn_fails :
      (r : ReconnectingTransport W C) {w : W} (x : Error)
      → Waiting r
      → dialer.connect r.world ≡ (w, err x)
      → get_conn comparable dialer cfg r ≡ (record r { world = w }, err x)
  unfolding after_connect
  get_conn_fails r x (o, v) e = get_conn_waiting comparable dialer cfg r o v ∙ rw e refl

  -- After as many calls of `Conn` as the connector fails, the next call makes the connection.
  pub get_conn-Outage :
      (n : ℕ) (r : ReconnectingTransport W C) {w : W} {c : C}
      → Waiting r
      → Outage n r.world w c
      → get_conn comparable dialer cfg (after_calls n r)
        ≡ (record { conn = c; closed = r.closed; world = fire_on_connect cfg w }, ok c)
  get_conn-Outage zero r waiting (over c e) = get_conn_connects r c waiting e
  get_conn-Outage (suc n) r waiting (outage x e rest) =
      let failed = get_conn_fails r x waiting e in
      ap (λ t. get_conn comparable dialer cfg (after_calls n t.0)) failed
      ∙ get_conn-Outage n (record r { world = _ }) waiting rest
