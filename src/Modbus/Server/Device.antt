-- ===== src/Modbus/Server/Device.antt =====
-- `HandleReadDeviceIdentification` of protocol/modbus/server_protocol.go. A string is its bytes.
pub mod Answer
use Prim.Native.Char.{Char, code}
use Prim.Native.String.{String}
use goindustrial.Base.{
  ℕ, ◌+◌, List, [], ◌∷◌, ◌++◌, leb, ◌==◌, if◌then◌else◌, length, Option, none, some,
}
use goindustrial.Base.{Go, ok, require, ◌>>◌}
use goindustrial.Base.{◌>>=◌}
use goindustrial.Base.Bytes.{u8, byte_at, store_at, make_bytes}
use goindustrial.Base.Stateful.{lift}
use goindustrial.Modbus.Types.{
  mei_read_device_id, read_device_id_regular_stream, read_device_id_extended_stream,
  read_device_id_specific_object, conformity_level_basic, more_follows_no,
}
use goindustrial.Modbus.Frame.{Request, Response}
use goindustrial.Modbus.Protocol.{DeviceIdObject, DeviceIdentification}
use goindustrial.Modbus.Server.{Handler, respond, invalid_data}

abbrev codes : String → List ℕ
codes String.[] = []
codes (String.◌∷◌ c s) = code c ∷ codes s

-- The map `objectValues`
object_values : ℕ → Option (List ℕ)
object_values id =
    if id == 0x00
    then some (codes "goindustrial")
    else if id == 0x01
    then some (codes "GI-001")
    else if id == 0x02
    then some (codes "1.0")
    else if id == 0x03
    then some (codes "https://github.com/iceisfun/goindustrial")
    else if id == 0x04
    then some (codes "goindustrial Modbus Server")
    else if id == 0x05
    then some (codes "Modbus TCP Server")
    else if id == 0x06
    then some (codes "Modbus Server")
    else if id == 0x80
    then some (codes "Extended Object")
    else none

-- `objectsToInclude`
objects_to_include : ℕ → ℕ → List ℕ
objects_to_include read_device_id_code object_id =
    if read_device_id_code == read_device_id_specific_object
    then object_id ∷ []
    else if read_device_id_code == read_device_id_regular_stream
    then 0x00 ∷ 0x01 ∷ 0x02 ∷ 0x03 ∷ 0x04 ∷ 0x05 ∷ 0x06 ∷ []
    else if read_device_id_code == read_device_id_extended_stream
    then 0x00 ∷ 0x01 ∷ 0x02 ∷ 0x03 ∷ 0x04 ∷ 0x05 ∷ 0x06 ∷ 0x80 ∷ []
    else 0x00 ∷ 0x01 ∷ 0x02 ∷ []

add_object : ℕ → Option (List ℕ) → List DeviceIdObject → List DeviceIdObject
add_object id none objects = objects
add_object id (some value) objects =
    record { id = id; size = u8 (length value); value = value } ∷ objects

-- The loop that looks the included objects up; a missing one is left out.
collect_objects : List ℕ → List DeviceIdObject
unfolding add_object object_values
collect_objects [] = []
collect_objects (id ∷ ids) = add_object id (object_values id) (collect_objects ids)

pub device_identification : ℕ → ℕ → DeviceIdentification
unfolding collect_objects objects_to_include
device_identification read_device_id_code object_id =
    let objects = collect_objects (objects_to_include read_device_id_code object_id) in
    record {
      read_device_id_code = read_device_id_code;
      conformity_level = conformity_level_basic;
      more_follows = more_follows_no;
      next_object_id = 0x00;
      number_of_objects = u8 (length objects);
      objects = objects;
    }

-- The sum behind `responseSize`, without the fixed header.
objects_size : List DeviceIdObject → ℕ
objects_size [] = 0
objects_size (o ∷ objects) = 2 + o.size + objects_size objects

-- `copy(responseData[offset:…], value)`
copy_at : List ℕ → ℕ → List ℕ → Go (List ℕ)
copy_at bytes offset [] = ok bytes
copy_at bytes offset (b ∷ value) = do
  bytes ← store_at bytes offset b
  copy_at bytes (offset + 1) value

-- The loop that writes the objects
write_objects : List ℕ → ℕ → List DeviceIdObject → Go (List ℕ)
unfolding copy_at
write_objects bytes offset [] = ok bytes
write_objects bytes offset (o ∷ objects) = do
  bytes ← store_at bytes offset o.id
  bytes ← store_at bytes (offset + 1) o.size
  bytes ← copy_at bytes (offset + 2) o.value
  write_objects bytes (offset + 2 + o.size) objects

pub encode_device_identification : DeviceIdentification → Go (List ℕ)
unfolding write_objects objects_size
encode_device_identification d = do
  bytes ← store_at (make_bytes (6 + objects_size d.objects)) 0 mei_read_device_id
  bytes ← store_at bytes 1 d.read_device_id_code
  bytes ← store_at bytes 2 d.conformity_level
  bytes ← store_at bytes 3 d.more_follows
  bytes ← store_at bytes 4 d.next_object_id
  bytes ← store_at bytes 5 d.number_of_objects
  write_objects bytes 6 d.objects

-- The payload of the answer, from that of the request.
identification_payload : Request → Go (List ℕ)
identification_payload req = do
  require (leb 3 (length req.pdu.payload)) (invalid_data req)
  mei ← byte_at req.pdu.payload 0
  require (mei == mei_read_device_id) (invalid_data req)
  read_device_id_code ← byte_at req.pdu.payload 1
  object_id ← byte_at req.pdu.payload 2
  encode_device_identification (device_identification read_device_id_code object_id)

unfoldable pub handle_read_device_identification : {S : Type 0} → Handler S
unfolding identification_payload
handle_read_device_identification req =
    lift (identification_payload req >>= λ bytes. ok (respond req bytes))
