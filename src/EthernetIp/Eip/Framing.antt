-- ===== src/EthernetIp/Eip/Framing.antt =====
-- Round trips of the encapsulation header and of the Common Packet Format.
use mathlib.Core.Path.{subst}
use goindustrial.Base.{
  ℕ, zero, suc, ◌+◌, ◌*◌, ◌/◌, ◌==◌, ltb, ◌≤◌, ◌<◌, ◌≡◌, refl, sym, ap, ◌∙◌, false, if◌then◌else◌,
  List, [], ◌∷◌, ◌++◌, All, append_assoc, length, length-append, arith,
}
use goindustrial.Base.{ok}
use goindustrial.Base.Bytes.{IsByte, u8, u16}
use goindustrial.Base.Bytes.Reader.{
  read_le16, read_le16-le16, read_le32-le32, le16, le32, read_full-append,
}
use goindustrial.EthernetIp.Eip.{
  EncapsulationHeader, header_encode, header_fields, header_decode, CpfItem, item_encode,
  new_common_packet_format, encode_items, cpf_encode, decode_item, decode_items,
  decode_common_packet_format,
}

-- The fields fit their types.
pub record IsHeader (h : EncapsulationHeader) : Type 0 where
  pub command_fits : h.command < 65536
  pub length_fits : h.data_length < 65536
  pub session_fits : h.session_handle < 4294967296
  pub status_fits : h.status < 4294967296
  pub context_fits : length h.sender_context ≡ 8
  pub options_fits : h.options < 4294967296

header_fields-header_encode :
    (h : EncapsulationHeader) → IsHeader h → header_fields (header_encode h) ≡ ok (h, [])
unfolding header_fields header_encode
header_fields-header_encode h fits =
    rw
      (
        read_le16-le16 h.command _ fits.command_fits,
        read_le16-le16 h.data_length _ fits.length_fits,
        read_le32-le32 h.session_handle _ fits.session_fits,
        read_le32-le32 h.status _ fits.status_fits,
        read_full-append h.sender_context (le32 h.options []) 8 (omega (arith, fits.context_fits)),
        read_le32-le32 h.options [] fits.options_fits,
      )
      refl

length-header_encode : (h : EncapsulationHeader) → IsHeader h → length (header_encode h) ≡ 24
unfolding header_encode
length-header_encode h fits =
    omega (arith, fits.context_fits, length-append h.sender_context (le32 h.options []))

-- A header whose fields fit their types is decoded from its encoding, and the bytes that follow are
-- left.
pub header_decode-header_encode :
    (h : EncapsulationHeader) (rest : List ℕ)
    → IsHeader h
    → header_decode (header_encode h ++ rest) ≡ ok (h, rest)
unfolding header_decode
header_decode-header_encode h rest fits =
    rw
      (
        read_full-append (header_encode h) rest 24 (omega (arith, length-header_encode h fits)),
        header_fields-header_encode h fits,
      )
      refl

-- The bytes of a number that was read.
le16-read_le16 :
    (bytes rest : List ℕ) (v : ℕ)
    → All IsByte bytes
    → read_le16 bytes ≡ ok (v, rest)
    → (bytes ≡ le16 v rest) × All IsByte rest × (v < 65536)
unfolding read_le16
le16-read_le16 [] rest v bs h = cc
le16-read_le16 (a ∷ []) rest v bs h = cc
le16-read_le16 (a ∷ b ∷ more) rest v (p, (q, bs)) h =
    let e : a + b * 256 ≡ v = ground arith in
    let r : more ≡ rest = ground arith in
    let lo : a ≡ u8 v = omega arith in
    let hi : b ≡ u8 (v / 256) = omega arith in
    (
      ap (λ t. t ∷ b ∷ more) lo
          ∙ ap (λ t. u8 v ∷ t ∷ more) hi
          ∙ ap (λ t. u8 v ∷ u8 (v / 256) ∷ t) r,
      subst (All IsByte) r bs,
      omega arith,
    )

-- The item fits its length field.
pub record IsItem (item : CpfItem) : Type 0 where
  pub type_fits : item.type_id < 65536
  pub length_fits : item.data_length < 65536
  pub length_counts : length item.payload ≡ item.data_length

item_payload :
    (n : ℕ) (payload rest : List ℕ)
    → length payload ≡ n
    → (if n == 0 then [] else payload) ++ rest ≡ payload ++ rest
item_payload zero [] rest h = refl
item_payload zero (b ∷ payload) rest h = absurd (omega arith)
item_payload (suc n) payload rest h =
    let some_ : (suc n == 0) ≡ false = ground arith in rw some_ refl

decode_item-item_encode :
    (item : CpfItem) (rest : List ℕ)
    → IsItem item
    → decode_item (item_encode item ++ rest) ≡ ok (item, rest)
unfolding decode_item item_encode
decode_item-item_encode item rest fits =
    rw
      (
        read_le16-le16 item.type_id _ fits.type_fits,
        read_le16-le16 item.data_length _ fits.length_fits,
        item_payload item.data_length item.payload rest fits.length_counts,
        read_full-append item.payload rest item.data_length (sym fits.length_counts),
      )
      refl

decode_items-encode_items :
    (items : List CpfItem) (rest : List ℕ)
    → All IsItem items
    → decode_items (length items) (encode_items items ++ rest) ≡ ok items
unfolding decode_items encode_items
decode_items-encode_items [] rest fits = refl
decode_items-encode_items (item ∷ items) rest (fit, fits) =
    rw
      (
        append_assoc (item_encode item) (encode_items items) rest,
        decode_item-item_encode item (encode_items items ++ rest) fit,
        decode_items-encode_items items rest fits,
      )
      refl

length-encode_items : (items : List CpfItem) → 4 * length items ≤ length (encode_items items)
unfolding encode_items item_encode
length-encode_items [] = omega arith
length-encode_items (item ∷ items) =
    omega (arith, length-encode_items items, length-append (item_encode item) (encode_items items))

-- Fewer than 65536 items, whose lengths are those of their data and fit 16 bits, are decoded from
-- the encoding of their packet, whatever bytes follow.
pub decode_common_packet_format-cpf_encode :
    (items : List CpfItem) (rest : List ℕ)
    → length items < 65536
    → All IsItem items
    → decode_common_packet_format (cpf_encode (new_common_packet_format items) ++ rest)
      ≡ ok (new_common_packet_format items)
unfolding decode_common_packet_format cpf_encode new_common_packet_format
decode_common_packet_format-cpf_encode items rest few fits =
    let count : u16 (length items) ≡ length items = omega arith in
    let long : ltb (length (encode_items items ++ rest)) (4 * length items) ≡ false =
      ground (arith, length-encode_items items, length-append (encode_items items) rest) in
    rw
      (
        decode_common_packet_format,
        read_le16-le16 (u16 (length items)) (encode_items items ++ rest) (omega arith),
        count,
        long,
        decode_items-encode_items items rest fits,
      )
      refl
