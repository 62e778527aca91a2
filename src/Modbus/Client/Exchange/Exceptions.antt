-- ===== src/Modbus/Client/Exchange/Exceptions.antt =====
-- What the client makes of a request that the server's handler refuses.
use goindustrial.Base.{
  ℕ, zero, suc, ◌+◌, ◌<◌, ◌==◌, ◌≡◌, refl, ◌∙◌, ap, inl, inr, Bool, Bool-cases, ◌&&◌, List, true,
  length, bit_or, arith,
}
use goindustrial.Base.{ok, err, modbus_error, nil_error}
use goindustrial.Modbus.Types.{is_exception}
use goindustrial.Modbus.Frame.{Request, new_request, new_response, to_error, get_exception}
use goindustrial.Modbus.Frame.RoundTrip.{FitsFrame}
use goindustrial.Modbus.Connection.{Handlers, dispatch_request, Connection, exception_response}
use goindustrial.Modbus.Connection.Safety.{Serves}
use goindustrial.Modbus.Connection.Loop.{answer-store}
use goindustrial.Modbus.Client.{Client, send, without_exception, after_send}
use goindustrial.Modbus.Client.Retries.{send_attempts-answered}
use goindustrial.Modbus.Client.Exchange.{loopback, conn_send-answer}

-- A test that holds below a number
abbrev all_below : ℕ → (ℕ → Bool) → Bool
all_below zero test = true
all_below (suc n) test = test n && all_below n test

both : (a b : Bool) → (a && b) ≡ true → (a ≡ true) × (b ≡ true)
both a b h = ground arith

all_below_lem : (n i : ℕ) (test : ℕ → Bool) → all_below n test ≡ true → i < n → test i ≡ true
all_below_lem zero i test h lt = absurd (omega arith)
all_below_lem (suc n) i test h lt =
    let (here, below) = both (test n) (all_below n test) h in
    elim (Bool-cases (i == n)) [
      | inl e ↦ let same : i ≡ n = ground arith in ap test same ∙ here
      | inr e ↦ let less : i < n = ground arith in all_below_lem n i test below less
    ]

-- A byte with the exception bit is recognised, which is tried on all of them.
is_exception-bit_or :
    (function_code : ℕ) → function_code < 256 → is_exception (bit_or function_code 0x80) ≡ true
unfolding is_exception
is_exception-bit_or function_code byte =
    all_below_lem 256 function_code (λ n. is_exception (bit_or n 0x80)) refl byte

module _ {S : Type 0} (handlers : Handlers S) (serves : Serves handlers) where
  -- With handlers that answer every request, when the handler of a request of the client, with a
  -- function code of one byte and a payload that fits a frame, refuses it with an exception code,
  -- `send` returns a `*ModbusError` with the function code and the exception bit on it and the
  -- exception code, without a retry, and the store is as the handler left it.
  pub send-refused :
      (client : Client) (c : Connection S) (function_code code : ℕ) (payload : List ℕ) {s : S}
      {f : ℕ}
      → function_code < 256
      → length payload + 2 < 65536
      → dispatch_request handlers (new_request client.unit_id function_code payload) c.store
        ≡ (s, err (modbus_error f code))
      → let (c', r) = send (loopback handlers) client function_code payload c in
        (r ≡ err (modbus_error (bit_or function_code 0x80) code)) × (c'.store ≡ s)
  unfolding send new_request
  send-refused client c function_code code payload byte small dispatched =
      let marked = is_exception-bit_or function_code byte in
      let req : Request = new_request client.unit_id function_code payload in
      let outcome = ap (λ x. x.1) dispatched in
      let fits : FitsFrame req.mbap req.pdu = record {
        transaction_fits = omega arith;
        protocol_fits = omega arith;
        payload_fits = small;
      } in
      let answered = rw outcome at (conn_send-answer handlers serves c req fits refl) in
      let short_frame : FitsFrame (exception_response req code).mbap
          (exception_response req code).pdu =
        unfold exception_response new_response in
        record {
          transaction_fits = omega arith;
          protocol_fits = omega arith;
          payload_fits = omega arith;
        } in
      let reached : (loopback handlers).conn c ≡ (c, ok tt) = unfold loopback in refl in
      let sent =
        send_attempts-answered (loopback handlers) req client.retries (suc client.retries) nil_error
          tt _ reached (answered short_frame) in
      let stored = answer-store handlers c req ∙ ap (λ x. x.0) dispatched in
      rw sent (
        unfold after_send without_exception to_error get_exception exception_response
          new_response in
        rw marked (refl, stored))
