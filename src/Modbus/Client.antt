-- ===== src/Modbus/Client.antt =====
-- protocol/modbus/client.go: `send`, with its retries, and the Modbus methods of `Client`. The
-- transport is an interface there; it is a parameter here, over the state W of everything that it
-- reaches. Deadlines, delays and the log are left out; the number of retries is not negative.
pub mod Retries
pub mod Reconnecting
pub mod Exchange
use goindustrial.Base.{ℕ, zero, suc, List, Bool, true, false, Option, none, some}
use goindustrial.Base.{Go, Error, ok, err, panic, modbus_error, attempts_failed, nil_error}
use goindustrial.Base.Stateful.{Exec, ◌>>=◌, lift}
use goindustrial.Modbus.Types.{
  func_read_coils, func_read_discrete_inputs, func_read_holding_registers,
  func_read_input_registers, func_write_single_coil, func_write_single_register,
  func_write_multiple_coils, func_write_multiple_registers, func_read_write_multiple_registers,
  func_read_exception_status, func_read_device_identification,
}
use goindustrial.Modbus.Frame.{Request, Response, new_request, to_error}
use goindustrial.Modbus.Protocol.{
  generate_read_coils_request, parse_read_coils_response, generate_read_discrete_inputs_request,
  parse_read_discrete_inputs_response, generate_read_holding_registers_request,
  parse_read_holding_registers_response, generate_read_input_registers_request,
  parse_read_input_registers_response, generate_write_single_coil_request,
  parse_write_single_coil_response, generate_write_single_register_request,
  parse_write_single_register_response, generate_write_multiple_coils_request,
  parse_write_multiple_coils_response, generate_write_multiple_registers_request,
  parse_write_multiple_registers_response, generate_read_write_multiple_registers_request,
  parse_read_write_multiple_registers_response, generate_read_exception_status_request,
  parse_read_exception_status_response, generate_read_device_identification_request,
  parse_read_device_identification_response, DeviceIdentification,
}

-- `transport.Transport[*TCPConn]`, with the connection's `Send`. A connection is of the type H.
pub record Transport (W H : Type 0) : Type 0 where
  pub conn : Exec W H
  pub conn_send : H → Request → Exec W Response
  pub reset : H → W → W

pub record Client : Type 0 where
  pub unit_id : ℕ
  pub retries : ℕ

-- `IsModbusError`: a type assertion, which does not look through a wrapper
unfoldable pub is_modbus_error : Error → Bool
is_modbus_error (modbus_error _ _) = true
is_modbus_error _ = false

-- `if response.IsException() { return nil, response.ToError() }`
unfoldable pub without_exception : Response → Option Error → Go Response
without_exception response (some e) = err e
without_exception response none = ok response

module _ {W H : Type 0} (t : Transport W H) where
  unfoldable pub after_error : H → (Error → Exec W Response) → Error → Bool → Exec W Response
  after_error handle retry e true w = (w, err e)
  after_error handle retry e false w = retry e (t.reset handle w)

  unfoldable pub after_send : H → (Error → Exec W Response) → W → Go Response → W × Go Response
  unfolding after_error is_modbus_error without_exception
  after_send handle retry w (ok response) = (w, without_exception response (to_error response))
  after_send handle retry w (err e) = after_error handle retry e (is_modbus_error e) w
  after_send handle retry w panic = (w, panic)

  unfoldable pub after_conn : Request → (Error → Exec W Response) → W → Go H → W × Go Response
  unfolding after_send
  after_conn request retry w (ok handle) =
      let (w', r) = t.conn_send handle request w in after_send handle retry w' r
  after_conn request retry w (err e) = retry e w
  after_conn request retry w panic = (w, panic)

  -- The loop of `send`: the attempts that are left, their number in all, and `lastErr`.
  unfoldable pub send_attempts : ℕ → ℕ → Request → Error → Exec W Response
  unfolding after_conn
  send_attempts zero attempts request last_err w = (w, err (attempts_failed attempts last_err))
  send_attempts (suc left) attempts request last_err w =
      let retry : Error → Exec W Response = λ e. send_attempts left attempts request e in
      let (w', r) = t.conn w in after_conn request retry w' r

  unfoldable pub send : Client → ℕ → List ℕ → Exec W Response
  unfolding send_attempts
  send c function_code payload =
      send_attempts (suc c.retries) (suc c.retries) (new_request c.unit_id function_code payload)
        nil_error

  module _ (c : Client) where
    unfoldable pub read_coils : ℕ → ℕ → Exec W (List Bool)
    read_coils address quantity = do
      payload ← lift (generate_read_coils_request address quantity)
      response ← send c func_read_coils payload
      lift (parse_read_coils_response response.pdu.payload quantity)

    unfoldable pub read_discrete_inputs : ℕ → ℕ → Exec W (List Bool)
    read_discrete_inputs address quantity = do
      payload ← lift (generate_read_discrete_inputs_request address quantity)
      response ← send c func_read_discrete_inputs payload
      lift (parse_read_discrete_inputs_response response.pdu.payload quantity)

    unfoldable pub read_holding_registers : ℕ → ℕ → Exec W (List ℕ)
    read_holding_registers address quantity = do
      payload ← lift (generate_read_holding_registers_request address quantity)
      response ← send c func_read_holding_registers payload
      lift (parse_read_holding_registers_response response.pdu.payload quantity)

    unfoldable pub read_input_registers : ℕ → ℕ → Exec W (List ℕ)
    read_input_registers address quantity = do
      payload ← lift (generate_read_input_registers_request address quantity)
      response ← send c func_read_input_registers payload
      lift (parse_read_input_registers_response response.pdu.payload quantity)

    unfoldable pub write_single_coil : ℕ → Bool → Exec W (Unit {0})
    write_single_coil address value = do
      payload ← lift (generate_write_single_coil_request address value)
      response ← send c func_write_single_coil payload
      _ ← lift (parse_write_single_coil_response response.pdu.payload)
      lift (ok tt)

    unfoldable pub write_single_register : ℕ → ℕ → Exec W (Unit {0})
    write_single_register address value = do
      payload ← lift (generate_write_single_register_request address value)
      response ← send c func_write_single_register payload
      _ ← lift (parse_write_single_register_response response.pdu.payload)
      lift (ok tt)

    unfoldable pub write_multiple_coils : ℕ → List Bool → Exec W (Unit {0})
    write_multiple_coils address values = do
      payload ← lift (generate_write_multiple_coils_request address values)
      response ← send c func_write_multiple_coils payload
      _ ← lift (parse_write_multiple_coils_response response.pdu.payload)
      lift (ok tt)

    unfoldable pub write_multiple_registers : ℕ → List ℕ → Exec W (Unit {0})
    write_multiple_registers address values = do
      payload ← lift (generate_write_multiple_registers_request address values)
      response ← send c func_write_multiple_registers payload
      _ ← lift (parse_write_multiple_registers_response response.pdu.payload)
      lift (ok tt)

    unfoldable pub read_write_multiple_registers : ℕ → ℕ → ℕ → List ℕ → Exec W (List ℕ)
    read_write_multiple_registers read_address read_quantity write_address write_values = do
      payload ← lift (
          generate_read_write_multiple_registers_request read_address read_quantity write_address
            write_values)
      response ← send c func_read_write_multiple_registers payload
      lift (parse_read_write_multiple_registers_response response.pdu.payload read_quantity)

    unfoldable pub read_exception_status : Exec W ℕ
    read_exception_status = do
      payload ← lift generate_read_exception_status_request
      response ← send c func_read_exception_status payload
      lift (parse_read_exception_status_response response.pdu.payload)

    unfoldable pub read_device_identification : ℕ → ℕ → Exec W DeviceIdentification
    read_device_identification read_device_id_code object_id = do
      payload ← lift (generate_read_device_identification_request read_device_id_code object_id)
      response ← send c func_read_device_identification payload
      lift (parse_read_device_identification_response response.pdu.payload)
