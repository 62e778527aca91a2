-- ===== src/Modbus/Client/Exchange.antt =====
-- A client and the default server back to back: the frame that the client sends is served, and the
-- bytes that the server wrote are decoded as the response. The two sides share no other state, and
-- the connection neither loses nor reorders bytes.
pub mod Reads
pub mod Writes
pub mod Memory
pub mod Device
pub mod Exceptions
use goindustrial.Base.{
  ℕ, suc, ◌+◌, ◌<◌, ◌≡◌, ap, refl, ◌∙◌, List, [], ◌∷◌, ◌++◌, Bool, true, false, length, drop,
  append-nil, if◌then◌else◌, arith,
}
use goindustrial.Base.{Go, Error, ok, err, panic, io_eof, nil_error}
use goindustrial.Base.Stateful.{Exec, ◌>>=◌, lift}
use goindustrial.Modbus.Types.{is_exception}
use goindustrial.Modbus.Frame.{
  Mbap, Request, Response, new_request, new_response, request_encode, response_encode,
  response_decode, to_error,
}
use goindustrial.Modbus.Frame.RoundTrip.{FitsFrame, response_decode-response_encode}
use goindustrial.Modbus.Server.{respond}
use goindustrial.Modbus.Connection.{
  Handlers, dispatch_request, Connection, Round, next, closed, crashed, handle_frame,
}
use goindustrial.Modbus.Connection.Safety.{Serves}
use goindustrial.Modbus.Connection.Loop.{
  wire_response, answer, answer-store, answer-output, handle_frame-answer,
}
use goindustrial.Modbus.Client.Retries.{send_attempts-answered}
use goindustrial.Modbus.Client.{
  Transport, Client, without_exception, after_send, after_conn, send_attempts, send,
}

module _ {S : Type 0} where
  received : Connection S → Round S → Connection S × Go Response
  received c (next c' _) = (c', response_decode (drop (length c.output) c'.output))
  received c (closed c') = (c', err io_eof)
  received c crashed = (c, panic)

  unfoldable pub loopback : Handlers S → Transport (Connection S) (Unit {0})
  unfolding received
  loopback handlers = record {
    conn = λ c. (c, ok tt);
    conn_send = λ _ req c. received c (handle_frame handlers c (request_encode req));
    reset = λ _ c. c;
  }

-- A method of the client that returned a value and left the server's store in the state s.
abbrev pub EndsWith : {S A : Type 0} → S → A → Connection S × Go A → Type 0
EndsWith s value (c, r) = (r ≡ ok value) × (c.store ≡ s)

module _ {S : Type 0} (handlers : Handlers S) where
  -- The shape of the client's methods: generate the data, send it, parse the response.
  abbrev pub call :
      {A : Type 0}
      → Client
      → ℕ
      → Go (List ℕ)
      → (List ℕ → Exec (Connection S) A)
      → Exec (Connection S) A
  call client function_code generated parse = do
    payload ← lift generated
    response ← send (loopback handlers) client function_code payload
    parse response.pdu.payload

drop-append : (xs ys : List ℕ) → drop (length xs) (xs ++ ys) ≡ ys
drop-append [] ys = refl
drop-append (x ∷ xs) ys = drop-append xs ys

module _ {S : Type 0} (handlers : Handlers S) (serves : Serves handlers) where
  pub conn_send-answer :
      (c : Connection S) (req : Request)
      → FitsFrame req.mbap req.pdu
      → req.mbap.protocol_id ≡ 0
      → let response = wire_response req (dispatch_request handlers req c.store).1 in
        FitsFrame response.mbap response.pdu
        → (loopback handlers).conn_send tt req c ≡ (answer handlers c req, ok response)
  unfolding loopback
  conn_send-answer c req fits modbus short =
      let response = wire_response req (dispatch_request handlers req c.store).1 in
      let frame =
        rw (append-nil (request_encode req)) at
          (handle_frame-answer handlers serves c req [] fits modbus) in
      let decoded =
        rw (append-nil (response_encode response)) at
          (response_decode-response_encode response [] short) in
      rw (
        frame,
        answer-output handlers c req,
        drop-append c.output (response_encode response),
        decoded,
      )

  -- The exchange of a request that its handler answers.
  pub send-loopback :
      (client : Client) (c : Connection S) (function_code : ℕ) (payload body : List ℕ) {s : S}
      → is_exception function_code ≡ false
      → length payload + 2 < 65536
      → length body + 2 < 65536
      → let req = new_request client.unit_id function_code payload in
        dispatch_request handlers req c.store ≡ (s, ok (respond req body))
        → send (loopback handlers) client function_code payload c
          ≡ (answer handlers c req, ok (respond req body))
  unfolding send new_request
  send-loopback client c function_code payload body plain small short dispatched =
      let req : Request = new_request client.unit_id function_code payload in
      let outcome = ap (λ x. x.1) dispatched in
      let fits : FitsFrame req.mbap req.pdu = record {
        transaction_fits = omega arith;
        protocol_fits = omega arith;
        payload_fits = small;
      } in
      let answered = rw outcome at (conn_send-answer c req fits refl) in
      let short_frame : FitsFrame (respond req body).mbap (respond req body).pdu =
        unfold respond new_response in
        record {
          transaction_fits = omega arith;
          protocol_fits = omega arith;
          payload_fits = short;
        } in
      let reached : (loopback handlers).conn c ≡ (c, ok tt) = unfold loopback in refl in
      send_attempts-answered (loopback handlers) req client.retries (suc client.retries) nil_error
        tt _ reached (answered short_frame)
      ∙ unfold after_send without_exception to_error respond new_response in rw plain

  pub call-loopback :
      {A : Type 0} (client : Client) (c : Connection S) (function_code : ℕ)
      (generated : Go (List ℕ)) (parse : List ℕ → Exec (Connection S) A) (payload body : List ℕ)
      (value : A) {s : S}
      → generated ≡ ok payload
      → is_exception function_code ≡ false
      → length payload + 2 < 65536
      → length body + 2 < 65536
      → dispatch_request handlers (new_request client.unit_id function_code payload) c.store
        ≡ (s, ok (respond (new_request client.unit_id function_code payload) body))
      → ((c' : Connection S) → parse body c' ≡ (c', ok value))
      → EndsWith s value (call handlers client function_code generated parse c)
  call-loopback client c function_code generated parse payload body value g plain small short
        dispatched parsed =
      let sent = send-loopback client c function_code payload body plain small short dispatched in
      let req : Request = new_request client.unit_id function_code payload in
      let stored = answer-store handlers c req ∙ ap (λ x. x.0) dispatched in
      let done = parsed (answer handlers c req) in
      unfold respond new_response in rw (g, sent, done) (refl, stored)
