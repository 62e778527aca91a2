-- ===== src/EthernetIp/Pccc.antt =====
-- protocol/ethernetip/pccc/frame.go: the frames of typed reads and writes and of their replies. Of
-- the errors only the kind is kept. A Go `int` is an integer that is not bounded; the loop over the
-- table of file types is recursion on the list.
pub mod Frames
pub mod Client
use goindustrial.Base.{
  ℕ, ◌+◌, ◌-◌, ◌*◌, ◌/◌, ◌%◌, ◌==◌, leb, not, ◌&&◌, if◌then◌else◌, List, [], ◌∷◌, ◌++◌, Bool, true,
  false, Option, none, some, length,
}
use goindustrial.Base.Bytes.{u8}
use goindustrial.Base.Bytes.Reader.{le16}
use goindustrial.Base.{
  Go, Error, ok, err, ◌>>=◌, ◌>>◌, require, pccc_unknown_file_type, pccc_file_number, pccc_element,
  pccc_sub_element, pccc_byte_size, pccc_write_empty, pccc_write_too_large, pccc_reply_too_short,
  pccc_no_reply_bit, pccc_missing_ext_sts, pccc_error,
}

-- A Go `int`: n, or -(n + 1)
pub data ℤ : Type 0 where
  pos : ℕ → ℤ
  negsuc : ℕ → ℤ

-- `byte(i)`
unfoldable pub byte_of : ℤ → ℕ
byte_of (pos n) = u8 n
byte_of (negsuc n) = 255 - u8 n

-- `lo <= i && i <= hi`, for numbers lo and hi that are not negative
unfoldable pub within : ℕ → ℕ → ℤ → Bool
within lo hi (pos n) = leb lo n && leb n hi
within lo hi (negsuc n) = false

pub record FileTypeEntry : Type 0 where
  pub ft : ℕ
  pub letter : List ℕ

file_type_entry : ℕ → List ℕ → FileTypeEntry
file_type_entry code name = record { ft = code; letter = name }

-- The mnemonics S, B, T, C, R, N, F, O, I, ST, A and D
unfoldable pub file_type_table : List FileTypeEntry
unfolding file_type_entry
file_type_table =
    file_type_entry 132 (83 ∷ [])
    ∷ file_type_entry 133 (66 ∷ [])
    ∷ file_type_entry 134 (84 ∷ [])
    ∷ file_type_entry 135 (67 ∷ [])
    ∷ file_type_entry 136 (82 ∷ [])
    ∷ file_type_entry 137 (78 ∷ [])
    ∷ file_type_entry 138 (70 ∷ [])
    ∷ file_type_entry 139 (79 ∷ [])
    ∷ file_type_entry 140 (73 ∷ [])
    ∷ file_type_entry 141 (83 ∷ 84 ∷ [])
    ∷ file_type_entry 142 (65 ∷ [])
    ∷ file_type_entry 143 (68 ∷ [])
    ∷ []

unfoldable pub letter_in : List FileTypeEntry → ℕ → List ℕ
letter_in [] code = []
letter_in (e ∷ entries) code = if e.ft == code then e.letter else letter_in entries code

unfoldable pub letter_of : ℕ → List ℕ
unfolding letter_in file_type_table
letter_of code = letter_in file_type_table code

unfoldable pub validate_address : ℤ → ℤ → ℤ → ℕ → Go (Unit {0})
unfolding letter_of within
validate_address file_num elem_num sub_elem ft = do
  require (not (length (letter_of ft) == 0)) pccc_unknown_file_type
  require (within 0 255 file_num) pccc_file_number
  require (within 0 255 elem_num) pccc_element
  require (within 0 255 sub_elem) pccc_sub_element

unfoldable pub encode_typed_read : ℕ → ℤ → ℤ → ℕ → ℤ → ℤ → Go (List ℕ)
unfolding validate_address byte_of within
encode_typed_read tns byte_size file_num ft elem_num sub_elem = do
  validate_address file_num elem_num sub_elem ft
  require (within 1 255 byte_size) pccc_byte_size
  ok (
      15
      ∷ 0
      ∷ le16 tns (
          162
          ∷ byte_of byte_size
          ∷ byte_of file_num
          ∷ ft
          ∷ byte_of elem_num
          ∷ byte_of sub_elem
          ∷ []))

unfoldable pub encode_typed_write : ℕ → ℤ → ℕ → ℤ → ℤ → List ℕ → Go (List ℕ)
unfolding validate_address byte_of
encode_typed_write tns file_num ft elem_num sub_elem bytes = do
  validate_address file_num elem_num sub_elem ft
  require (not (length bytes == 0)) pccc_write_empty
  require (leb (length bytes) 240) pccc_write_too_large
  ok (15 ∷ 0 ∷ le16 tns (170 ∷ byte_of file_num ∷ ft ∷ byte_of elem_num ∷ byte_of sub_elem ∷ bytes))

pub record Reply : Type 0 where
  pub command : ℕ
  pub sts : ℕ
  pub tns : ℕ
  pub ext_sts : ℕ
  pub bytes : List ℕ

-- `Reply{}`
abbrev pub zero_reply : Reply
zero_reply = record { command = 0; sts = 0; tns = 0; ext_sts = 0; bytes = [] }

-- The end of `DecodeReply`, with what is left of the frame. An error comes with the reply.
unfoldable pub reply_payload : Reply → List ℕ → Reply × Option Error
reply_payload r rest = elim (r.sts == 0) [
  | true ↦ (record r { bytes = rest }, none)
  | false ↦ (r, some (pccc_error r.sts r.ext_sts))
]

unfoldable pub reply_ext_sts : Reply → List ℕ → Reply × Option Error
unfolding reply_payload
reply_ext_sts r [] = (zero_reply, some pccc_missing_ext_sts)
reply_ext_sts r (x ∷ rest) = reply_payload (record r { ext_sts = x }) rest

unfoldable pub reply_status : Reply → List ℕ → Reply × Option Error
unfolding reply_payload reply_ext_sts
reply_status r rest = elim (r.sts == 240) [
  | true ↦ reply_ext_sts r rest
  | false ↦ reply_payload r rest
]

-- `raw[0] & ReplyBit == 0`, and `raw[0] &^ ReplyBit` where the bit is set
unfoldable pub decode_reply : List ℕ → Reply × Option Error
unfolding reply_status
decode_reply (cmd ∷ sts ∷ t0 ∷ t1 ∷ rest) = elim (cmd / 64 % 2 == 0) [
  | true ↦ (zero_reply, some pccc_no_reply_bit)
  | false ↦
      reply_status
        (record { command = cmd - 64; sts = sts; tns = t0 + t1 * 256; ext_sts = 0; bytes = [] })
        rest
]
decode_reply _ = (zero_reply, some pccc_reply_too_short)
