-- ===== src/Modbus/Server.antt =====
-- protocol/modbus/server_protocol.go: a handler decodes the PDU, calls the data store, and answers
-- with a response or a `*ModbusError`. The server's loops count in uint16; the guards above them
-- keep every index below 2⁸ + 2, so that arithmetic does not wrap.
pub mod Reads
pub mod Writes
pub mod Device
pub mod Answers
use goindustrial.Base.{ℕ, ◌+◌, ◌*◌, List, Bool, not, ◌||◌, ltb, leb, ◌==◌, length}
use goindustrial.Base.{Go, Error, ok, err, panic, require}
use goindustrial.Base.{invalid_quantity, modbus_error}
use goindustrial.Base.Bytes.{u8, byte_at, store_at, u16_at, put_u16, make_bytes}
use goindustrial.Base.Stateful.{Exec, ◌>>=◌, ◌>>◌, lift, query}
use goindustrial.Modbus.Types.{
  exception_invalid_data_value, exception_server_device_failure, max_coil_count, max_register_count,
  max_write_coil_count, max_write_register_count, max_read_write_read_count,
  max_read_write_write_count, coil_on_u16, coil_off_u16,
}
use goindustrial.Modbus.Frame.{Request, Response, new_response}
use goindustrial.Modbus.Packing.{
  ceil_div_eight, pack_bits, unpack_bits, pack_registers, unpack_registers,
}
use goindustrial.Modbus.Store.{DataStore}

abbrev pub Handler : Type 0 → Type 0
Handler S = Request → Exec S Response

-- `NewModbusError(req.GetPDU().FunctionCode, ExceptionInvalidDataValue)`
abbrev pub invalid_data : Request → Error
invalid_data req = modbus_error req.pdu.function_code exception_invalid_data_value

abbrev pub device_failure : Request → Error
device_failure req = modbus_error req.pdu.function_code exception_server_device_failure

-- `if err == ErrInvalidQuantity { … } return … ExceptionServerDeviceFailure`
pub quantity_error : Request → Error → Error
quantity_error req invalid_quantity = invalid_data req
quantity_error req _ = device_failure req

-- The result of a store's method, with its error translated.
on_error : {A : Type 0} → (Error → Error) → Go A → Go A
on_error f (ok a) = ok a
on_error f (err e) = err (f e)
on_error f panic = panic

pub translate : {S A : Type 0} → (Error → Error) → Exec S A → Exec S A
unfolding on_error
translate f m s = let (s', r) = m s in (s', on_error f r)

-- `NewResponse(req.GetTransactionID(), req.GetUnitID(), req.GetPDU().FunctionCode, data)`
unfoldable pub respond : Request → List ℕ → Response
respond req payload =
    new_response req.mbap.transaction_id req.mbap.unit_id req.pdu.function_code payload

module _ {S : Type 0} where
  -- `handleReadBitValues`
  pub handle_read_bit_values : ℕ → (S → ℕ → ℕ → Go (List Bool)) → Handler S
  unfolding translate quantity_error
  handle_read_bit_values max_quantity read req = do
    lift (require (length req.pdu.payload == 4) (invalid_data req))
    address ← lift (u16_at req.pdu.payload 0)
    quantity ← lift (u16_at req.pdu.payload 2)
    lift (require (not (quantity == 0 || ltb max_quantity quantity)) (invalid_data req))
    values ← translate (quantity_error req) (query (λ s. read s address quantity))
    let byte_count = ceil_div_eight quantity
    bytes ← lift (store_at (make_bytes (1 + byte_count)) 0 (u8 byte_count))
    bytes ← lift (pack_bits 1 0 values bytes)
    lift (ok (respond req bytes))

  -- `handleReadRegisterValues`
  pub handle_read_register_values : ℕ → (S → ℕ → ℕ → Go (List ℕ)) → Handler S
  unfolding translate quantity_error
  handle_read_register_values max_quantity read req = do
    lift (require (length req.pdu.payload == 4) (invalid_data req))
    address ← lift (u16_at req.pdu.payload 0)
    quantity ← lift (u16_at req.pdu.payload 2)
    lift (require (not (quantity == 0 || ltb max_quantity quantity)) (invalid_data req))
    values ← translate (quantity_error req) (query (λ s. read s address quantity))
    let byte_count = length values * 2
    bytes ← lift (store_at (make_bytes (1 + byte_count)) 0 (u8 byte_count))
    bytes ← lift (pack_registers 1 0 values bytes)
    lift (ok (respond req bytes))

module _ {S : Type 0} (store : DataStore S) where
  open store use {
    read_coils, read_discrete_inputs, read_holding_registers, read_input_registers,
    write_single_coil, write_single_register, write_multiple_coils, write_multiple_registers,
  }

  unfoldable pub handle_read_coils : Handler S
  unfolding handle_read_bit_values
  handle_read_coils = handle_read_bit_values max_coil_count read_coils

  unfoldable pub handle_read_discrete_inputs : Handler S
  unfolding handle_read_bit_values
  handle_read_discrete_inputs = handle_read_bit_values max_coil_count read_discrete_inputs

  unfoldable pub handle_read_holding_registers : Handler S
  unfolding handle_read_register_values
  handle_read_holding_registers =
      handle_read_register_values max_register_count read_holding_registers

  unfoldable pub handle_read_input_registers : Handler S
  unfolding handle_read_register_values
  handle_read_input_registers = handle_read_register_values max_register_count read_input_registers

  unfoldable pub handle_write_single_coil : Handler S
  unfolding translate
  handle_write_single_coil req = do
    lift (require (length req.pdu.payload == 4) (invalid_data req))
    address ← lift (u16_at req.pdu.payload 0)
    value ← lift (u16_at req.pdu.payload 2)
    lift (require (value == coil_on_u16 || value == coil_off_u16) (invalid_data req))
    translate (λ _. device_failure req) (λ s. write_single_coil s address (value == coil_on_u16))
    lift (ok (respond req req.pdu.payload))

  unfoldable pub handle_write_single_register : Handler S
  unfolding translate
  handle_write_single_register req = do
    lift (require (length req.pdu.payload == 4) (invalid_data req))
    address ← lift (u16_at req.pdu.payload 0)
    value ← lift (u16_at req.pdu.payload 2)
    translate (λ _. device_failure req) (λ s. write_single_register s address value)
    lift (ok (respond req req.pdu.payload))

  unfoldable pub handle_write_multiple_coils : Handler S
  unfolding translate quantity_error
  handle_write_multiple_coils req = do
    lift (require (leb 5 (length req.pdu.payload)) (invalid_data req))
    address ← lift (u16_at req.pdu.payload 0)
    quantity ← lift (u16_at req.pdu.payload 2)
    byte_count ← lift (byte_at req.pdu.payload 4)
    lift (require (length req.pdu.payload == 5 + byte_count) (invalid_data req))
    lift (require (not (quantity == 0 || ltb max_write_coil_count quantity)) (invalid_data req))
    lift (require (byte_count == ceil_div_eight quantity) (invalid_data req))
    values ← lift (unpack_bits 5 0 quantity req.pdu.payload)
    translate (quantity_error req) (λ s. write_multiple_coils s address values)
    bytes ← lift (put_u16 (make_bytes 4) 0 address)
    bytes ← lift (put_u16 bytes 2 quantity)
    lift (ok (respond req bytes))

  unfoldable pub handle_write_multiple_registers : Handler S
  unfolding translate quantity_error
  handle_write_multiple_registers req = do
    lift (require (leb 5 (length req.pdu.payload)) (invalid_data req))
    address ← lift (u16_at req.pdu.payload 0)
    quantity ← lift (u16_at req.pdu.payload 2)
    byte_count ← lift (byte_at req.pdu.payload 4)
    lift (require (length req.pdu.payload == 5 + byte_count) (invalid_data req))
    lift (require (not (quantity == 0 || ltb max_write_register_count quantity)) (invalid_data req))
    lift (require (byte_count == quantity * 2) (invalid_data req))
    values ← lift (unpack_registers 5 0 quantity req.pdu.payload)
    translate (quantity_error req) (λ s. write_multiple_registers s address values)
    bytes ← lift (put_u16 (make_bytes 4) 0 address)
    bytes ← lift (put_u16 bytes 2 quantity)
    lift (ok (respond req bytes))

  -- The write comes before the read.
  unfoldable pub handle_read_write_multiple_registers : Handler S
  unfolding translate quantity_error
  handle_read_write_multiple_registers req = do
    lift (require (leb 9 (length req.pdu.payload)) (invalid_data req))
    read_address ← lift (u16_at req.pdu.payload 0)
    read_quantity ← lift (u16_at req.pdu.payload 2)
    write_address ← lift (u16_at req.pdu.payload 4)
    write_quantity ← lift (u16_at req.pdu.payload 6)
    byte_count ← lift (byte_at req.pdu.payload 8)
    lift (require (length req.pdu.payload == 9 + byte_count) (invalid_data req))
    lift (
        require
          (not (
            read_quantity == 0
            || (ltb max_read_write_read_count read_quantity
                || (write_quantity == 0 || ltb max_read_write_write_count write_quantity))))
          (invalid_data req))
    lift (require (byte_count == write_quantity * 2) (invalid_data req))
    write_values ← lift (unpack_registers 9 0 write_quantity req.pdu.payload)
    translate (quantity_error req) (λ s. write_multiple_registers s write_address write_values)
    read_values ←
        translate (quantity_error req)
          (query (λ s. read_holding_registers s read_address read_quantity))
    let byte_count = length read_values * 2
    bytes ← lift (store_at (make_bytes (1 + byte_count)) 0 (u8 byte_count))
    bytes ← lift (pack_registers 1 0 read_values bytes)
    lift (ok (respond req bytes))
