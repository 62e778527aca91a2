-- ===== src/Modbus/Connection.antt =====
-- protocol/modbus/server.go: the handler table, and `handleConnection`, which reads frames from a
-- connection, dispatches them and writes the answers. The input is the bytes that the client sends
-- before it closes its side; deadlines, the log, callbacks and failing writes are left out. A panic
-- in a handler is not recovered, and ends the process.
pub mod Rounds
pub mod Safety
pub mod Loop
pub mod Total
use goindustrial.Base.Bytes.Reader.{read_full}
use goindustrial.Base.{
  ℕ, zero, suc, ◌+◌, ◌-◌, ◌%◌, ◌^◌, List, [], ◌∷◌, ◌++◌, Bool, not, ◌==◌, leb, if◌then◌else◌,
  bit_or, Option, none, some,
}
use goindustrial.Base.{Go, Error, ok, err, panic, ◌>>=◌, modbus_error}
use goindustrial.Base.Bytes.{byte_at, u16_at}
use goindustrial.Base.Stateful.{Exec}
use goindustrial.Modbus.Types.{
  tcp_header_length, tcp_protocol_identifier, exception_bit, exception_function_code_not_supported,
  func_read_coils, func_read_discrete_inputs, func_read_holding_registers,
  func_read_input_registers, func_write_single_coil, func_write_single_register,
  func_write_multiple_coils, func_write_multiple_registers, func_read_write_multiple_registers,
  func_read_device_identification,
}
use goindustrial.Modbus.Frame.{
  Mbap, Request, Response, new_request, set_transaction_id, new_response, response_encode,
}
use goindustrial.Modbus.Store.{DataStore}
use goindustrial.Modbus.Server.{
  Handler, handle_read_coils, handle_read_discrete_inputs, handle_read_holding_registers,
  handle_read_input_registers, handle_write_single_coil, handle_write_single_register,
  handle_write_multiple_coils, handle_write_multiple_registers,
  handle_read_write_multiple_registers,
}
use goindustrial.Modbus.Server.Device.{handle_read_device_identification}

-- The map `handlers`
abbrev pub Handlers : Type 0 → Type 0
Handlers S = ℕ → Option (Handler S)

unfoldable pub set_handler : {S : Type 0} → ℕ → Handler S → Handlers S → Handlers S
set_handler function_code handler handlers j =
    if j == function_code then some handler else handlers j

-- `setupDefaultHandlers`, the last registration outermost
unfoldable pub setup_default_handlers : {S : Type 0} → DataStore S → Handlers S
unfolding set_handler
setup_default_handlers store =
    set_handler func_read_device_identification handle_read_device_identification (
      set_handler func_read_write_multiple_registers (handle_read_write_multiple_registers store) (
        set_handler func_write_multiple_registers (handle_write_multiple_registers store) (
          set_handler func_write_multiple_coils (handle_write_multiple_coils store) (
            set_handler func_write_single_register (handle_write_single_register store) (
              set_handler func_write_single_coil (handle_write_single_coil store) (
                set_handler func_read_input_registers (handle_read_input_registers store) (
                  set_handler func_read_holding_registers (handle_read_holding_registers store) (
                    set_handler func_read_discrete_inputs (handle_read_discrete_inputs store)
                      (set_handler func_read_coils (handle_read_coils store) (λ _. none))))))))))

unfoldable pub run_handler : {S : Type 0} → Option (Handler S) → Handler S
run_handler none request s =
    (s, err (modbus_error request.pdu.function_code exception_function_code_not_supported))
run_handler (some handler) request s = handler request s

unfoldable pub dispatch_request : {S : Type 0} → Handlers S → Handler S
unfolding run_handler
dispatch_request handlers request = run_handler (handlers request.pdu.function_code) request

-- The counters of `clientConn`, 64 bits each
pub record ClientConn : Type 0 where
  pub rx_count : ℕ
  pub tx_count : ℕ
  pub fc_count : ℕ → ℕ

abbrev u64 : ℕ → ℕ
u64 n = n % 2 ^ 64

count_received : ℕ → ClientConn → ClientConn
count_received function_code c = record {
  rx_count = u64 (c.rx_count + 1);
  tx_count = c.tx_count;
  fc_count = λ j. if j == function_code then u64 (c.fc_count j + 1) else c.fc_count j;
}

-- A connection between two rounds: the store, the counters, and the bytes written so far.
pub record Connection (S : Type 0) : Type 0 where
  pub store : S
  pub client : ClientConn
  pub output : List ℕ

-- How a round of the loop ends: it goes on with the rest of the input, the connection is closed, or
-- the process panics.
pub data Round (S : Type 0) : Type 0 where
  next : Connection S → List ℕ → Round S
  closed : Connection S → Round S
  crashed : Round S

-- `functionCode|FunctionCode(ExceptionBit)`
unfoldable pub exception_response : Request → ℕ → Response
exception_response request exception_code =
    new_response request.mbap.transaction_id request.mbap.unit_id
      (bit_or request.pdu.function_code exception_bit) (exception_code ∷ [])

module _ {S : Type 0} where
  -- `sendResponse`, with the count behind it
  send_response : Connection S → Response → Connection S
  send_response c response = record c {
    client = record c.client { tx_count = u64 (c.client.tx_count + 1) };
    output = c.output ++ response_encode response;
  }

  finish : Connection S → Request → List ℕ → Go Response → Round S
  unfolding send_response
  finish c request input (ok response) = next (send_response c response) input
  finish c request input (err (modbus_error _ exception_code)) =
      next (send_response c (exception_response request exception_code)) input
  finish c request input (err _) = closed c
  finish c request input panic = crashed

  -- A request that has been read
  pub serve_request : Handlers S → Connection S → List ℕ → Request → Round S
  unfolding finish count_received
  serve_request handlers c input request =
      let client = count_received request.pdu.function_code c.client in
      let (s, r) = dispatch_request handlers request c.store in
      finish (record c { store = s; client = client }) request input r

  -- `data[0]` and `data[1:]`
  on_data : Handlers S → Connection S → Mbap → List ℕ → List ℕ → Round S
  unfolding serve_request
  on_data handlers c header input [] = crashed
  on_data handlers c header input (function_code ∷ payload) =
      serve_request handlers c input (
        set_transaction_id header.transaction_id (new_request header.unit_id function_code payload))

  after_data : Handlers S → Connection S → Mbap → Go (List ℕ × List ℕ) → Round S
  unfolding on_data
  after_data handlers c header (ok (bytes, input)) = on_data handlers c header input bytes
  after_data handlers c header (err _) = closed c
  after_data handlers c header panic = crashed

  on_header : Handlers S → Connection S → List ℕ → Go (Mbap × ℕ) → Round S
  unfolding after_data
  on_header handlers c input (ok (header, field)) =
      if not (header.protocol_id == tcp_protocol_identifier)
      then next c input
      else if leb field 1
      then next c input
      else after_data handlers c header (read_full (field - 1) input)
  on_header handlers c input (err _) = closed c
  on_header handlers c input panic = crashed

-- The fields of the seven header bytes, with the length field
unfoldable pub parse_header : List ℕ → Go (Mbap × ℕ)
parse_header header = do
  transaction_id ← u16_at header 0
  protocol_id ← u16_at header 2
  field ← u16_at header 4
  unit_id ← byte_at header 6
  ok (
    record { transaction_id = transaction_id; protocol_id = protocol_id; unit_id = unit_id },
    field,
  )

module _ {S : Type 0} where
  after_header : Handlers S → Connection S → Go (List ℕ × List ℕ) → Round S
  unfolding on_header parse_header
  after_header handlers c (ok (header, input)) = on_header handlers c input (parse_header header)
  after_header handlers c (err _) = closed c
  after_header handlers c panic = crashed

  -- One round of the loop
  pub handle_frame : Handlers S → Connection S → List ℕ → Round S
  unfolding after_header
  handle_frame handlers c input = after_header handlers c (read_full tcp_header_length input)

  -- The loop. `none` means that the fuel ran out.
  pub handle_connection : ℕ → Handlers S → Connection S → List ℕ → Option (Round S)
  handle_connection zero handlers c input = none
  handle_connection (suc fuel) handlers c input = elim (handle_frame handlers c input) [
    | next c' rest ↦ handle_connection fuel handlers c' rest
    | closed c' ↦ some (closed c')
    | crashed ↦ some crashed
  ]
