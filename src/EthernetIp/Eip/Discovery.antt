-- ===== src/EthernetIp/Eip/Discovery.antt =====
-- protocol/ethernetip/eip/discovery.go: the answers to ListIdentity and ListServices. A string is its
-- bytes; writes to a buffer do not fail.
pub mod Listing
use goindustrial.Base.{
  ℕ, zero, suc, ◌+◌, ◌-◌, ◌==◌, ltb, if◌then◌else◌, List, [], ◌∷◌, ◌++◌, Option, none, some, length,
  take,
}
use goindustrial.Base.{Go, Error, ok, err, ◌>>=◌}
use goindustrial.Base.Bytes.{u8, u16, make_bytes}
use goindustrial.Base.Bytes.Reader.{Read, read_full, read_u8, read_le16, read_le32, le16, le32}
use goindustrial.EthernetIp.Eip.Commands.{item_list_identity}

-- The revision is an array of 2 bytes, the socket address one of 16.
pub record ListIdentityItem : Type 0 where
  pub type_id : ℕ
  pub data_length : ℕ
  pub encaps_version : ℕ
  pub socket_addr : List ℕ
  pub vendor_id : ℕ
  pub device_type : ℕ
  pub product_code : ℕ
  pub revision : List ℕ
  pub status : ℕ
  pub serial_number : ℕ
  pub product_name : List ℕ
  pub state : ℕ

pub record ListServicesItem : Type 0 where
  pub type_id : ℕ
  pub data_length : ℕ
  pub version : ℕ
  pub capability_flags : ℕ
  pub name : List ℕ

-- `nameBytes`, at most 32 of them
unfoldable pub name_bytes : List ℕ → List ℕ
name_bytes name = if ltb 32 (length name) then take 32 name else name

-- The body of the loop of `EncodeListIdentityResponse`, before what follows
unfoldable pub encode_identity : ListIdentityItem → List ℕ → List ℕ
unfolding name_bytes
encode_identity item rest =
    let name = name_bytes item.product_name in
    le16 item.type_id (
      le16 (u16 (34 + length name)) (
        le16 item.encaps_version (
          item.socket_addr
          ++ le16 item.vendor_id (
              le16 item.device_type (
                le16 item.product_code (
                  item.revision
                  ++ le16 item.status (
                      le32 item.serial_number
                        (u8 (length name) ∷ (name ++ item.state ∷ rest)))))))))

unfoldable pub encode_identities : List ListIdentityItem → List ℕ
unfolding encode_identity
encode_identities [] = []
encode_identities (item ∷ items) = encode_identity item (encode_identities items)

unfoldable pub encode_list_identity_response : List ListIdentityItem → List ℕ
unfolding encode_identities
encode_list_identity_response items = le16 (u16 (length items)) (encode_identities items)

-- `copy` into an array of 16 bytes
unfoldable pub name_fixed : List ℕ → List ℕ
name_fixed name = take 16 name ++ make_bytes (16 - length (take 16 name))

-- The body of the loop of `EncodeListServicesResponse`, before what follows
unfoldable pub encode_service : ListServicesItem → List ℕ → List ℕ
unfolding name_fixed
encode_service item rest =
    le16 item.type_id
      (le16 20 (le16 item.version (le16 item.capability_flags (name_fixed item.name ++ rest))))

unfoldable pub encode_services : List ListServicesItem → List ℕ
unfolding encode_service
encode_services [] = []
encode_services (item ∷ items) = encode_service item (encode_services items)

unfoldable pub encode_list_services_response : List ListServicesItem → List ℕ
unfolding encode_services
encode_list_services_response items = le16 (u16 (length items)) (encode_services items)

keep_unless_null : ℕ → List ℕ → List ℕ
keep_unless_null b [] = if b == 0 then [] else b ∷ []
keep_unless_null b (c ∷ cs) = b ∷ c ∷ cs

-- `bytes.TrimRight(nameBytes, "\x00")`
unfoldable pub trim_nulls : List ℕ → List ℕ
unfolding keep_unless_null
trim_nulls [] = []
trim_nulls (b ∷ bs) = keep_unless_null b (trim_nulls bs)

-- `DecodeListServicesItem`
unfoldable pub decode_list_services_item : List ℕ → Read ListServicesItem
unfolding trim_nulls
decode_list_services_item bytes = do
  (type_id, bytes) ← read_le16 bytes
  (data_length, bytes) ← read_le16 bytes
  (version, bytes) ← read_le16 bytes
  (capability_flags, bytes) ← read_le16 bytes
  (name, bytes) ← read_full 16 bytes
  ok (
    record {
      type_id = type_id;
      data_length = data_length;
      version = version;
      capability_flags = capability_flags;
      name = trim_nulls name;
    },
    bytes,
  )

unfoldable pub decode_services : ℕ → List ℕ → Go (List ListServicesItem)
unfolding decode_list_services_item
decode_services zero bytes = ok []
decode_services (suc n) bytes = do
  (item, bytes) ← decode_list_services_item bytes
  items ← decode_services n bytes
  ok (item ∷ items)

-- `DecodeListServicesResponse`
unfoldable pub decode_list_services_response : List ℕ → Go (List ListServicesItem)
unfolding decode_services
decode_list_services_response bytes = do
  (count, bytes) ← read_le16 bytes
  decode_services count bytes

-- The rest of an identity item, after its type and its length
unfoldable pub decode_identity_fields : ℕ → ℕ → List ℕ → Read ListIdentityItem
decode_identity_fields type_id data_length bytes = do
  (encaps_version, bytes) ← read_le16 bytes
  (socket_addr, bytes) ← read_full 16 bytes
  (vendor_id, bytes) ← read_le16 bytes
  (device_type, bytes) ← read_le16 bytes
  (product_code, bytes) ← read_le16 bytes
  (revision, bytes) ← read_full 2 bytes
  (status, bytes) ← read_le16 bytes
  (serial_number, bytes) ← read_le32 bytes
  (name_len, bytes) ← read_u8 bytes
  (product_name, bytes) ← read_full name_len bytes
  (state, bytes) ← read_u8 bytes
  ok (
    record {
      type_id = type_id;
      data_length = data_length;
      encaps_version = encaps_version;
      socket_addr = socket_addr;
      vendor_id = vendor_id;
      device_type = device_type;
      product_code = product_code;
      revision = revision;
      status = status;
      serial_number = serial_number;
      product_name = product_name;
      state = state;
    },
    bytes,
  )

found_item : Read ListIdentityItem → Read (Option ListIdentityItem)
found_item r = r >>= λ p. ok (some p.0, p.1)

skipped_item : Read (List ℕ) → Read (Option ListIdentityItem)
skipped_item r = r >>= λ p. ok (none, p.1)

-- An item of the loop: of another type it is skipped.
unfoldable pub decode_identity : List ℕ → Read (Option ListIdentityItem)
unfolding decode_identity_fields found_item skipped_item
decode_identity bytes = do
  (type_id, bytes) ← read_le16 bytes
  (data_length, bytes) ← read_le16 bytes
  if type_id == item_list_identity
      then found_item (decode_identity_fields type_id data_length bytes)
      else skipped_item (read_full data_length bytes)

append_found : Option ListIdentityItem → List ListIdentityItem → List ListIdentityItem
append_found none items = items
append_found (some item) items = item ∷ items

unfoldable pub decode_identities : ℕ → List ℕ → Go (List ListIdentityItem)
unfolding decode_identity append_found
decode_identities zero bytes = ok []
decode_identities (suc n) bytes = do
  (found, bytes) ← decode_identity bytes
  items ← decode_identities n bytes
  ok (append_found found items)

-- `DecodeListIdentityResponse`
unfoldable pub decode_list_identity_response : List ℕ → Go (List ListIdentityItem)
unfolding decode_identities
decode_list_identity_response bytes = do
  (count, bytes) ← read_le16 bytes
  decode_identities count bytes
