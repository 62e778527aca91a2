-- ===== src/EthernetIp/Eip/Discovery/Listing.antt =====
-- Round trips of the lists of identities and of services.
use goindustrial.Base.{
  ℕ, ◌+◌, ◌<◌, ◌≤◌, ◌≡◌, refl, sym, ltb, false, List, [], ◌∷◌, All, map, some, length, arith,
}
use goindustrial.Base.{ok}
use goindustrial.Base.Bytes.{u8, u16}
use goindustrial.Base.Bytes.Reader.{read_u8, read_full-append, read_le16-le16, read_le32-le32}
use goindustrial.EthernetIp.Eip.Discovery.{
  ListIdentityItem, name_bytes, encode_identity, encode_identities, encode_list_identity_response,
  decode_identity_fields, found_item, decode_identity, append_found, decode_identities,
  decode_list_identity_response,
}

-- The fields fit their types; the item is of its type, and the name is at most 32 bytes long.
pub record IsIdentity (item : ListIdentityItem) : Type 0 where
  pub type_right : item.type_id ≡ 12
  pub version_fits : item.encaps_version < 65536
  pub addr_counts : length item.socket_addr ≡ 16
  pub vendor_fits : item.vendor_id < 65536
  pub device_fits : item.device_type < 65536
  pub product_fits : item.product_code < 65536
  pub revision_counts : length item.revision ≡ 2
  pub status_fits : item.status < 65536
  pub serial_fits : item.serial_number < 4294967296
  pub name_short : length item.product_name ≤ 32

-- An item as it is sent: the length field is made anew.
abbrev pub as_sent : ListIdentityItem → ListIdentityItem
as_sent item = record item { data_length = 34 + length item.product_name }

name_bytes_short : (name : List ℕ) → length name ≤ 32 → name_bytes name ≡ name
unfolding name_bytes
name_bytes_short name h =
    let whole : ltb 32 (length name) ≡ false = ground (arith, h) in rw whole refl

decode_identity-encode_identity :
    (item : ListIdentityItem) (rest : List ℕ)
    → IsIdentity item
    → decode_identity (encode_identity item rest) ≡ ok (some (as_sent item), rest)
unfolding decode_identity encode_identity decode_identity_fields found_item read_u8
decode_identity-encode_identity item rest fits =
    let byte : u8 (length item.product_name) ≡ length item.product_name = omega arith in
    let count : u16 (34 + length item.product_name) ≡ 34 + length item.product_name = omega arith in
    rw
      (
        name_bytes_short item.product_name fits.name_short,
        fits.type_right,
        count,
        read_le16-le16 12 _ (omega arith),
        read_le16-le16 (34 + length item.product_name) _ (omega arith),
        read_le16-le16 item.encaps_version _ fits.version_fits,
        read_full-append item.socket_addr _ 16 (sym fits.addr_counts),
        read_le16-le16 item.vendor_id _ fits.vendor_fits,
        read_le16-le16 item.device_type _ fits.device_fits,
        read_le16-le16 item.product_code _ fits.product_fits,
        read_full-append item.revision _ 2 (sym fits.revision_counts),
        read_le16-le16 item.status _ fits.status_fits,
        read_le32-le32 item.serial_number _ fits.serial_fits,
        byte,
        read_full-append item.product_name _ (length item.product_name) refl,
      )
      refl

decode_identities-encode_identities :
    (items : List ListIdentityItem)
    → All IsIdentity items
    → decode_identities (length items) (encode_identities items) ≡ ok (map as_sent items)
unfolding decode_identities encode_identities append_found
decode_identities-encode_identities [] h = refl
decode_identities-encode_identities (item ∷ items) (h, hs) =
    rw
      (
        decode_identity-encode_identity item (encode_identities items) h,
        decode_identities-encode_identities items hs,
      )
      refl

-- Fewer than 65536 identities, each of the type of a list's identity item, 12, whose fields fit
-- their types and whose names have at most 32 bytes, are decoded from their encoding, with the
-- length field made anew.
pub decode_list_identity_response-encode :
    (items : List ListIdentityItem)
    → length items < 65536
    → All IsIdentity items
    → decode_list_identity_response (encode_list_identity_response items) ≡ ok (map as_sent items)
unfolding decode_list_identity_response encode_list_identity_response
decode_list_identity_response-encode items few h =
    let count : u16 (length items) ≡ length items = omega arith in
    rw (count, read_le16-le16 (length items) _ few, decode_identities-encode_identities items h)
      refl
