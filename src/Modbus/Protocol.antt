-- ===== src/Modbus/Protocol.antt =====
-- protocol/modbus/protocol.go, the client's `ProtocolHandler`: PDU data of requests, and the parsers
-- of responses. The logger has no effect on the results and is left out. An error stands for the
-- whole Go result: the zero values returned beside it are dropped.
pub mod Generate
pub mod Parse
pub mod Device
use goindustrial.Base.{
  ℕ, zero, suc, ◌+◌, ◌*◌, ◌≤◌, List, [], ◌∷◌, Bool, true, false, not, ◌||◌, ◌&&◌, ltb, leb, ◌==◌,
  if◌then◌else◌, length, take, drop, Option, none, some,
}
use goindustrial.Base.{Go, ok, err, panic, ◌>>=◌, ◌>>◌, require}
use goindustrial.Base.{
  invalid_quantity, invalid_response_length, invalid_value, invalid_response_format, empty_response,
  invalid_coil_value,
}
use goindustrial.Base.Bytes.{u8, u16, byte_at, store_at, u16_at, put_u16, make_bytes}
use goindustrial.Modbus.Types.{
  max_coil_count, max_register_count, max_write_coil_count, max_write_register_count,
  max_read_write_read_count, max_read_write_write_count, coil_on_u16, coil_off_u16,
  mei_read_device_id, read_device_id_basic_stream, read_device_id_specific_object,
}
use goindustrial.Modbus.Packing.{
  ceil_div_eight, pack_bits, unpack_bits, pack_registers, unpack_registers,
}

-- `generateReadRequest`
unfoldable pub generate_read_request : ℕ → ℕ → ℕ → Go (List ℕ)
generate_read_request address quantity max_quantity = do
  require (not (quantity == 0 || ltb max_quantity quantity)) invalid_quantity
  bytes ← put_u16 (make_bytes 4) 0 address
  put_u16 bytes 2 quantity

-- `parseBitResponse`
unfoldable pub parse_bit_response : List ℕ → ℕ → Go (List Bool)
parse_bit_response bytes quantity = do
  require (not (length bytes == 0)) empty_response
  byte_count ← byte_at bytes 0
  require (length bytes == byte_count + 1) invalid_response_length
  require (byte_count == ceil_div_eight quantity) invalid_response_length
  unpack_bits 1 0 quantity bytes

-- `parseRegisterResponse`
unfoldable pub parse_register_response : List ℕ → ℕ → Go (List ℕ)
parse_register_response bytes quantity = do
  require (not (length bytes == 0)) empty_response
  byte_count ← byte_at bytes 0
  require (length bytes == byte_count + 1) invalid_response_length
  require (byte_count == quantity * 2) invalid_response_length
  unpack_registers 1 0 quantity bytes

unfoldable pub generate_read_coils_request : ℕ → ℕ → Go (List ℕ)
unfolding generate_read_request
generate_read_coils_request address quantity = generate_read_request address quantity max_coil_count

unfoldable pub parse_read_coils_response : List ℕ → ℕ → Go (List Bool)
unfolding parse_bit_response
parse_read_coils_response bytes quantity = parse_bit_response bytes quantity

unfoldable pub generate_read_discrete_inputs_request : ℕ → ℕ → Go (List ℕ)
unfolding generate_read_request
generate_read_discrete_inputs_request address quantity =
    generate_read_request address quantity max_coil_count

unfoldable pub parse_read_discrete_inputs_response : List ℕ → ℕ → Go (List Bool)
unfolding parse_bit_response
parse_read_discrete_inputs_response bytes quantity = parse_bit_response bytes quantity

unfoldable pub generate_read_holding_registers_request : ℕ → ℕ → Go (List ℕ)
unfolding generate_read_request
generate_read_holding_registers_request address quantity =
    generate_read_request address quantity max_register_count

unfoldable pub parse_read_holding_registers_response : List ℕ → ℕ → Go (List ℕ)
unfolding parse_register_response
parse_read_holding_registers_response bytes quantity = parse_register_response bytes quantity

unfoldable pub generate_read_input_registers_request : ℕ → ℕ → Go (List ℕ)
unfolding generate_read_request
generate_read_input_registers_request address quantity =
    generate_read_request address quantity max_register_count

unfoldable pub parse_read_input_registers_response : List ℕ → ℕ → Go (List ℕ)
unfolding parse_register_response
parse_read_input_registers_response bytes quantity = parse_register_response bytes quantity

unfoldable pub generate_write_single_coil_request : ℕ → Bool → Go (List ℕ)
generate_write_single_coil_request address value = do
  bytes ← put_u16 (make_bytes 4) 0 address
  if value then put_u16 bytes 2 coil_on_u16 else put_u16 bytes 2 coil_off_u16

unfoldable pub parse_write_single_coil_response : List ℕ → Go (ℕ × Bool)
parse_write_single_coil_response bytes = do
  require (length bytes == 4) invalid_response_length
  address ← u16_at bytes 0
  value ← u16_at bytes 2
  if value == coil_on_u16
      then ok (address, true)
      else if value == coil_off_u16
      then ok (address, false)
      else err (invalid_coil_value address value)

unfoldable pub generate_write_single_register_request : ℕ → ℕ → Go (List ℕ)
generate_write_single_register_request address value = do
  bytes ← put_u16 (make_bytes 4) 0 address
  put_u16 bytes 2 value

unfoldable pub parse_write_single_register_response : List ℕ → Go (ℕ × ℕ)
parse_write_single_register_response bytes = do
  require (length bytes == 4) invalid_response_length
  address ← u16_at bytes 0
  value ← u16_at bytes 2
  ok (address, value)

unfoldable pub generate_write_multiple_coils_request : ℕ → List Bool → Go (List ℕ)
generate_write_multiple_coils_request address values = do
  require (not (length values == 0 || ltb max_write_coil_count (length values))) invalid_quantity
  let byte_count = ceil_div_eight (length values)
  bytes ← put_u16 (make_bytes (5 + byte_count)) 0 address
  bytes ← put_u16 bytes 2 (u16 (length values))
  bytes ← store_at bytes 4 (u8 byte_count)
  pack_bits 5 0 values bytes

unfoldable pub parse_write_multiple_coils_response : List ℕ → Go (ℕ × ℕ)
parse_write_multiple_coils_response bytes = do
  require (length bytes == 4) invalid_response_length
  address ← u16_at bytes 0
  quantity ← u16_at bytes 2
  ok (address, quantity)

unfoldable pub generate_write_multiple_registers_request : ℕ → List ℕ → Go (List ℕ)
generate_write_multiple_registers_request address values = do
  require (not (length values == 0 || ltb max_write_register_count (length values)))
      invalid_quantity
  let byte_count = length values * 2
  bytes ← put_u16 (make_bytes (5 + byte_count)) 0 address
  bytes ← put_u16 bytes 2 (u16 (length values))
  bytes ← store_at bytes 4 (u8 byte_count)
  pack_registers 5 0 values bytes

unfoldable pub parse_write_multiple_registers_response : List ℕ → Go (ℕ × ℕ)
parse_write_multiple_registers_response bytes = do
  require (length bytes == 4) invalid_response_length
  address ← u16_at bytes 0
  quantity ← u16_at bytes 2
  ok (address, quantity)

unfoldable pub generate_read_write_multiple_registers_request : ℕ → ℕ → ℕ → List ℕ → Go (List ℕ)
generate_read_write_multiple_registers_request read_address read_quantity write_address values = do
  require (not (read_quantity == 0 || ltb max_read_write_read_count read_quantity)) invalid_quantity
  require (not (length values == 0 || ltb max_read_write_write_count (length values)))
      invalid_quantity
  let byte_count = length values * 2
  bytes ← put_u16 (make_bytes (9 + byte_count)) 0 read_address
  bytes ← put_u16 bytes 2 read_quantity
  bytes ← put_u16 bytes 4 write_address
  bytes ← put_u16 bytes 6 (u16 (length values))
  bytes ← store_at bytes 8 (u8 byte_count)
  pack_registers 9 0 values bytes

unfoldable pub parse_read_write_multiple_registers_response : List ℕ → ℕ → Go (List ℕ)
unfolding parse_read_holding_registers_response
parse_read_write_multiple_registers_response bytes read_quantity =
    parse_read_holding_registers_response bytes read_quantity

unfoldable pub generate_read_exception_status_request : Go (List ℕ)
generate_read_exception_status_request = ok []

unfoldable pub parse_read_exception_status_response : List ℕ → Go ℕ
parse_read_exception_status_response bytes = do
  require (length bytes == 1) invalid_response_length
  byte_at bytes 0

unfoldable pub generate_read_device_identification_request : ℕ → ℕ → Go (List ℕ)
generate_read_device_identification_request read_device_id_code object_id = do
  require
      (not (
        ltb read_device_id_code read_device_id_basic_stream
        || ltb read_device_id_specific_object read_device_id_code))
      invalid_value
  ok (mei_read_device_id ∷ read_device_id_code ∷ object_id ∷ [])

-- device.go
pub record DeviceIdObject : Type 0 where
  pub id : ℕ
  pub size : ℕ
  pub value : List ℕ

pub record DeviceIdentification : Type 0 where
  pub read_device_id_code : ℕ
  pub conformity_level : ℕ
  pub more_follows : ℕ
  pub next_object_id : ℕ
  pub number_of_objects : ℕ
  pub objects : List DeviceIdObject

-- `GetObject`, the first object with the ID
pub get_object : ℕ → List DeviceIdObject → Option DeviceIdObject
get_object id [] = none
get_object id (o ∷ objects) = if o.id == id then some o else get_object id objects

-- The loop over the objects, with the rounds left. A string is its bytes.
unfoldable pub parse_objects : List ℕ → ℕ → ℕ → Go (List DeviceIdObject)
parse_objects bytes offset zero = ok []
parse_objects bytes offset (suc n) = do
  require (leb (offset + 2) (length bytes)) invalid_response_format
  object_id ← byte_at bytes offset
  object_length ← byte_at bytes (offset + 1)
  require (leb (offset + 2 + object_length) (length bytes)) invalid_response_format
  let object_value = take object_length (drop (offset + 2) bytes)
  objects ← parse_objects bytes (offset + 2 + object_length) n
  ok (record { id = object_id; size = object_length; value = object_value } ∷ objects)

unfoldable pub parse_read_device_identification_response : List ℕ → Go DeviceIdentification
parse_read_device_identification_response bytes = do
  require (leb 6 (length bytes)) invalid_response_length
  mei ← byte_at bytes 0
  require (mei == mei_read_device_id) invalid_value
  code ← byte_at bytes 1
  level ← byte_at bytes 2
  more ← byte_at bytes 3
  next ← byte_at bytes 4
  count ← byte_at bytes 5
  objects ← parse_objects bytes 6 count
  ok (record {
    read_device_id_code = code;
    conformity_level = level;
    more_follows = more;
    next_object_id = next;
    number_of_objects = count;
    objects = objects;
  })
