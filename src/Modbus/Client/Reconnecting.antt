-- ===== src/Modbus/Client/Reconnecting.antt =====
-- The client over `ReconnectingTransport`: its connections, and its retries through an outage. What a
-- connection's `Send` does is a parameter.
use goindustrial.Base.{ℕ, zero, suc, ◌≤◌, ◌≡◌, refl, ◌∙◌, Bool-cases, inl, inr, if◌then◌else◌, List}
use goindustrial.Base.{Go, Error, ok, err, panic, modbus_error, nil_error}
use goindustrial.Base.Stateful.{Exec}
use goindustrial.Modbus.Types.{is_exception}
use goindustrial.Modbus.Frame.{Request, Response, new_request, get_exception}
use goindustrial.Modbus.Client.{
  Transport, Client, is_modbus_error, after_error, after_send, after_conn, send_attempts, send,
}
use goindustrial.Modbus.Client.Retries.{no_connection, Failures, no_failure, failure, send-answered}
use goindustrial.Transport.{Comparable, Dialer, Config, fire_on_connect}
use goindustrial.Transport.Tracking.{Tracks}
use goindustrial.Transport.Reconnecting.{ReconnectingTransport, get_conn, reset}
use goindustrial.Transport.Reconnecting.Owner.{Owns, get_conn-Owns, reset-Owns}
use goindustrial.Transport.Reconnecting.Retry.{
  Outage, over, outage, Waiting, get_conn_connects, get_conn_fails,
}

module _ {W C : Type 0} (comparable : Comparable C) (dialer : Dialer W C) (cfg : Config W)
    (tcp_send : C → Request → Exec W Response) where
  -- `Send` reaches the world, and not the transport.
  abbrev pub send_through : C → Request → Exec (ReconnectingTransport W C) Response
  send_through c request r =
      let (w, answer) = tcp_send c request r.world in (record r { world = w }, answer)

  abbrev pub over_transport : Transport (ReconnectingTransport W C) C
  over_transport = record {
    conn = get_conn comparable dialer cfg;
    conn_send = send_through;
    reset = reset comparable dialer cfg;
  }

module _ {W C : Type 0} {comparable : Comparable C} {dialer : Dialer W C} {cfg : Config W}
    {open_conns : W → List C} (tracks : Tracks comparable dialer cfg open_conns)
    (tcp_send : C → Request → Exec W Response)
    (keeps : (c : C) (request : Request) (w : W)
      → open_conns (tcp_send c request w).0 ≡ open_conns w) where
  abbrev client_transport : Transport (ReconnectingTransport W C) C
  client_transport = over_transport comparable dialer cfg tcp_send

  abbrev Own : ReconnectingTransport W C → Type 0
  Own r = Owns comparable dialer cfg open_conns r

  -- A part of `send` that keeps the transport its only owner.
  abbrev Kept : (Error → Exec (ReconnectingTransport W C) Response) → Type 0
  Kept retry = (e : Error) (r : ReconnectingTransport W C) → Own r → Own (retry e r).0

  after_send-Owns :
      (c : C) (retry : Error → Exec (ReconnectingTransport W C) Response)
      (r : ReconnectingTransport W C) (answer : Go Response)
      → Kept retry
      → Own r
      → Own (after_send client_transport c retry r answer).0
  unfolding after_send after_error
  after_send-Owns c retry r (ok response) kept h = h
  after_send-Owns c retry r panic kept h = h
  after_send-Owns c retry r (err e) kept h = elim (Bool-cases (is_modbus_error e)) [
    | inl yes_ ↦ rw yes_ h
    | inr no_ ↦ rw no_ (kept e _ (reset-Owns tracks c r h))
  ]

  after_conn-Owns :
      (request : Request) (retry : Error → Exec (ReconnectingTransport W C) Response)
      (r : ReconnectingTransport W C) (result : Go C)
      → Kept retry
      → Own r
      → Own (after_conn client_transport request retry r result).0
  unfolding after_conn
  after_conn-Owns request retry r (ok c) kept h =
      after_send-Owns c retry _ _ kept
        (record { its_own = keeps c request r.world ∙ h.its_own; none_closed = h.none_closed })
  after_conn-Owns request retry r (err e) kept h = kept e r h
  after_conn-Owns request retry r panic kept h = h

  send_attempts-Owns :
      (left attempts : ℕ) (request : Request) (e : Error) (r : ReconnectingTransport W C)
      → Own r
      → Own (send_attempts client_transport left attempts request e r).0
  unfolding send_attempts
  send_attempts-Owns zero attempts request e r h = h
  send_attempts-Owns (suc left) attempts request e r h =
      after_conn-Owns request (λ e'. send_attempts client_transport left attempts request e') _ _
        (λ e' r' h'. send_attempts-Owns left attempts request e' r' h') (get_conn-Owns tracks r h)

  -- Where sending leaves the open connections as they are, `send` over a reconnecting transport
  -- keeps it the only owner: whether it succeeds or fails, the open connections are the transport's
  -- one or none.
  pub send-Owns :
      (c : Client) (function_code : ℕ) (payload : List ℕ) (r : ReconnectingTransport W C)
      → Owns comparable dialer cfg open_conns r
      → Owns comparable dialer cfg open_conns (send client_transport c function_code payload r).0
  unfolding send
  send-Owns c function_code payload r h =
      send_attempts-Owns (suc c.retries) (suc c.retries)
        (new_request c.unit_id function_code payload) nil_error r h

module _ {W C : Type 0} (comparable : Comparable C) (dialer : Dialer W C) (cfg : Config W)
    (tcp_send : C → Request → Exec W Response) where
  -- The failures of an outage.
  Outage-Failures :
      (request : Request) (n : ℕ) (r : ReconnectingTransport W C) {w : W} (c : C) (e : Error)
      → Waiting comparable dialer cfg r
      → Outage comparable dialer cfg n r.world w c
      → (v : W) × (e' : Error) × (dialer.connect v ≡ (w, ok c))
        × Failures
            (over_transport comparable dialer cfg tcp_send)
            request
            n
            r
            e
            (record r { world = v })
            e'
  Outage-Failures request zero r c e waiting (over c' connected) =
      (r.world, e, connected, no_failure)
  Outage-Failures request (suc n) r c e waiting (outage x failed rest) =
      let (v, e', connected, fs) =
        Outage-Failures request n (record r { world = _ }) c x waiting rest in
      (
        v,
        e',
        connected,
        failure (no_connection x (get_conn_fails comparable dialer cfg r x waiting failed)) fs,
      )

  -- Over a reconnecting transport that is open and has no connection: when the connector fails n
  -- times, at most as often as the client retries, and then connects, and the connection's send
  -- returns a response, `send` returns that response, or an exception response as its
  -- `*ModbusError`, and the transport keeps the connection.
  pub send-Outage :
      (c : Client) (function_code n : ℕ) (payload : List ℕ) (r : ReconnectingTransport W C)
      {w w' : W} {conn : C} (response : Response)
      → Waiting comparable dialer cfg r
      → Outage comparable dialer cfg n r.world w conn
      → n ≤ c.retries
      → tcp_send conn (new_request c.unit_id function_code payload) (fire_on_connect cfg w)
        ≡ (w', ok response)
      → send (over_transport comparable dialer cfg tcp_send) c function_code payload r ≡ (
        record { conn = conn; closed = r.closed; world = w' },
        if is_exception response.pdu.function_code
            then err (modbus_error response.pdu.function_code (get_exception response))
            else ok response,
      )
  send-Outage c function_code n payload r {conn = conn} response waiting down few answered =
      let (v, e, connected, fs) = Outage-Failures _ n r conn nil_error waiting down in
      send-answered (over_transport comparable dialer cfg tcp_send) c function_code payload conn
        response fs few
        (get_conn_connects comparable dialer cfg (record r { world = v }) conn waiting connected)
        (rw answered refl)
