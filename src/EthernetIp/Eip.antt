-- ===== src/EthernetIp/Eip.antt =====
-- protocol/ethernetip/eip: the encapsulation header (header.go) and the Common Packet Format (cpf.go).
-- `binary.Write` to a `bytes.Buffer` does not fail.
pub mod Framing
pub mod Commands
pub mod Discovery
use goindustrial.Base.{
  ℕ, zero, suc, ◌+◌, ◌*◌, ◌==◌, ltb, if◌then◌else◌, List, [], ◌∷◌, ◌++◌, Option, none, some, length,
}
use goindustrial.Base.{Go, Error, ok, err, cpf_item_count, ◌>>=◌, ◌>>◌, require}
use goindustrial.Base.{not}
use goindustrial.Base.Bytes.{u16}
use goindustrial.Base.Bytes.Reader.{Read, read_full, read_le16, read_le32, le16, le32}

abbrev pub header_size : ℕ
header_size = 24

-- `EncapsulationHeader`; the context is an array of 8 bytes
pub record EncapsulationHeader : Type 0 where
  pub command : ℕ
  pub data_length : ℕ
  pub session_handle : ℕ
  pub status : ℕ
  pub sender_context : List ℕ
  pub options : ℕ

unfoldable pub header_encode : EncapsulationHeader → List ℕ
header_encode h = le16 h.command (
    le16 h.data_length
      (le32 h.session_handle (le32 h.status (h.sender_context ++ le32 h.options []))))

-- The fields of the structure, in their order
unfoldable pub header_fields : List ℕ → Read EncapsulationHeader
header_fields bytes = do
  (command, bytes) ← read_le16 bytes
  (data_length, bytes) ← read_le16 bytes
  (session_handle, bytes) ← read_le32 bytes
  (status, bytes) ← read_le32 bytes
  (sender_context, bytes) ← read_full 8 bytes
  (options, bytes) ← read_le32 bytes
  ok (
    record {
      command = command;
      data_length = data_length;
      session_handle = session_handle;
      status = status;
      sender_context = sender_context;
      options = options;
    },
    bytes,
  )

-- `binary.Read` reads the 24 bytes at once
unfoldable pub header_decode : List ℕ → Read EncapsulationHeader
unfolding header_fields
header_decode input = do
  (bytes, rest) ← read_full header_size input
  (header, _) ← header_fields bytes
  ok (header, rest)

pub record CpfItem : Type 0 where
  pub type_id : ℕ
  pub data_length : ℕ
  pub payload : List ℕ

unfoldable pub new_cpf_item : ℕ → List ℕ → CpfItem
new_cpf_item type_id payload = record {
  type_id = type_id;
  data_length = u16 (length payload);
  payload = payload;
}

unfoldable pub item_encode : CpfItem → List ℕ
item_encode item =
    le16 item.type_id (le16 item.data_length (if item.data_length == 0 then [] else item.payload))

pub record CommonPacketFormat : Type 0 where
  pub item_count : ℕ
  pub items : List CpfItem

unfoldable pub new_common_packet_format : List CpfItem → CommonPacketFormat
new_common_packet_format items = record { item_count = u16 (length items); items = items }

-- The loop over the items
unfoldable pub encode_items : List CpfItem → List ℕ
unfolding item_encode
encode_items [] = []
encode_items (item ∷ items) = item_encode item ++ encode_items items

unfoldable pub cpf_encode : CommonPacketFormat → List ℕ
unfolding encode_items
cpf_encode cpf = le16 cpf.item_count (encode_items cpf.items)

unfoldable pub decode_item : List ℕ → Read CpfItem
decode_item bytes = do
  (type_id, bytes) ← read_le16 bytes
  (data_length, bytes) ← read_le16 bytes
  (payload, bytes) ← read_full data_length bytes
  ok (record { type_id = type_id; data_length = data_length; payload = payload }, bytes)

-- The loop over the count
unfoldable pub decode_items : ℕ → List ℕ → Go (List CpfItem)
unfolding decode_item
decode_items zero bytes = ok []
decode_items (suc n) bytes = do
  (item, bytes) ← decode_item bytes
  items ← decode_items n bytes
  ok (item ∷ items)

-- `DecodeCommonPacketFormat`
unfoldable pub decode_common_packet_format : List ℕ → Go CommonPacketFormat
unfolding decode_items
decode_common_packet_format bytes = do
  (count, bytes) ← read_le16 bytes
  require (not (ltb (length bytes) (4 * count))) (cpf_item_count count (length bytes))
  items ← decode_items count bytes
  ok (record { item_count = count; items = items })

unfoldable pub find_item : ℕ → List CpfItem → Option CpfItem
find_item type_id [] = none
find_item type_id (item ∷ items) =
    if item.type_id == type_id then some item else find_item type_id items

-- `FindItemByType`
unfoldable pub find_item_by_type : ℕ → CommonPacketFormat → Option CpfItem
unfolding find_item
find_item_by_type type_id cpf = find_item type_id cpf.items
