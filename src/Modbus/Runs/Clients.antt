-- ===== src/Modbus/Runs/Clients.antt =====
-- The client's methods on small inputs.
use goindustrial.Base.{ℕ, suc, if◌then◌else◌, ◌==◌, [], ◌∷◌, true, false, ◌≡◌, refl, arith}
use goindustrial.Base.{Go, ok, err, io_eof, attempts_failed}
use goindustrial.Modbus.Types.{is_exception}
use goindustrial.Modbus.Frame.{Response, new_response}
use goindustrial.Modbus.Store.{memory_store}
use goindustrial.Modbus.Connection.{setup_default_handlers}
use goindustrial.Modbus.Client.{Transport, send}
use goindustrial.Modbus.Client as Client
use goindustrial.Modbus.Client.Retries.{
  no_connection, no_failure, failure, send-Failures, send-answered,
}
use goindustrial.Modbus.Client.Exchange.{loopback}
use goindustrial.Modbus.Client.Exchange.Memory.{
  read_holding_registers-write_multiple_registers, read_coils-write_multiple_coils,
}
use goindustrial.Modbus.Runs.{opened, two_retries}

write_then_read_registers_example :
    let server = setup_default_handlers memory_store in
    let (c', r) =
      Client.write_multiple_registers (loopback server) two_retries 65535 (7 ∷ 65535 ∷ []) opened in
    (r ≡ ok tt)
    × ((Client.read_holding_registers (loopback server) two_retries 65535 2 c').1
        ≡ ok (7 ∷ 65535 ∷ []))
write_then_read_registers_example =
    read_holding_registers-write_multiple_registers two_retries opened 65535 (7 ∷ 65535 ∷ [])
      (omega arith) (omega arith, (omega arith, tt)) (omega arith, omega arith)

write_then_read_coils_example :
    let server = setup_default_handlers memory_store in
    let (c', r) =
      Client.write_multiple_coils
        (loopback server)
        two_retries
        65535
        (true ∷ false ∷ true ∷ [])
        opened in
    (r ≡ ok tt)
    × ((Client.read_coils (loopback server) two_retries 65535 3 c').1
        ≡ ok (true ∷ false ∷ true ∷ []))
write_then_read_coils_example =
    read_coils-write_multiple_coils two_retries opened 65535 (true ∷ false ∷ true ∷ [])
      (omega arith) (omega arith, omega arith)

-- A transport that has no connection, and one that has none at first and then a device that
-- answers with the result r. The state counts the calls of `Conn`.
abbrev unreachable : Transport ℕ (Unit {0})
unreachable = record {
  conn = λ n. (suc n, err io_eof);
  conn_send = λ _ _ n. (n, err io_eof);
  reset = λ _ n. n;
}

abbrev flaky : Go Response → Transport ℕ (Unit {0})
flaky r = record {
  conn = λ n. (suc n, if n == 0 then err io_eof else ok tt);
  conn_send = λ _ _ n. (n, r);
  reset = λ _ n. n;
}

send-Failures_example : send unreachable two_retries 3 [] 0 ≡ (3, err (attempts_failed 3 io_eof))
send-Failures_example = send-Failures unreachable two_retries 3 [] (
    failure (no_connection io_eof refl)
      (failure (no_connection io_eof refl) (failure (no_connection io_eof refl) no_failure)))

send-answered_example :
    send (flaky (ok (new_response 0 1 3 (2 ∷ 0 ∷ 7 ∷ [])))) two_retries 3 [] 0
    ≡ (2, ok (new_response 0 1 3 (2 ∷ 0 ∷ 7 ∷ [])))
unfolding is_exception new_response
send-answered_example =
    send-answered (flaky (ok (new_response 0 1 3 (2 ∷ 0 ∷ 7 ∷ [])))) two_retries 3 [] tt
      (new_response 0 1 3 (2 ∷ 0 ∷ 7 ∷ [])) (failure (no_connection io_eof refl) no_failure)
      (omega arith) refl refl
