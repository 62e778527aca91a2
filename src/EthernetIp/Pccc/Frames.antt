-- ===== src/EthernetIp/Pccc/Frames.antt =====
-- pccc/frame.go: the frames read by their format, and the replies that a device makes.
use goindustrial.Base.{
  ℕ, ◌+◌, ◌-◌, ◌*◌, ◌/◌, ◌%◌, ◌<◌, ◌≤◌, ◌==◌, ◌≡◌, ◌≢◌, ◌⊎◌, leb, ◌&&◌, refl, ap, if◌then◌else◌,
  List, [], ◌∷◌, Bool, true, false, inl, inr, Option, none, some, length, arith, require, not,
}
use goindustrial.Base.Bytes.Reader.{le16, join_le16}
use goindustrial.Base.{
  Error, ok, err, pccc_error, pccc_byte_size, pccc_unknown_file_type, pccc_file_number,
  pccc_element, pccc_sub_element, pccc_write_empty, pccc_write_too_large,
}
use goindustrial.EthernetIp.Pccc.{
  ℤ, pos, negsuc, letter_of, within, byte_of, validate_address, encode_typed_read,
  encode_typed_write, Reply, reply_payload, reply_ext_sts, reply_status, decode_reply,
}

-- The typed commands.
pub data Command : Type 0 where
  typed_read : ℕ → ℤ → ℤ → ℕ → ℤ → ℤ → Command
  typed_write : ℕ → ℤ → ℕ → ℤ → ℤ → List ℕ → Command

read_command : ℕ → List ℕ → Option Command
read_command tns (size ∷ file_num ∷ ft ∷ elem_num ∷ sub_elem ∷ []) =
    some (typed_read tns (pos size) (pos file_num) ft (pos elem_num) (pos sub_elem))
read_command tns _ = none

write_command : ℕ → List ℕ → Option Command
write_command tns (file_num ∷ ft ∷ elem_num ∷ sub_elem ∷ bytes) =
    some (typed_write tns (pos file_num) ft (pos elem_num) (pos sub_elem) bytes)
write_command tns _ = none

-- The format of commands: CMD 0x0F, STS 0, the transaction number, and the function with its fields.
unfoldable pub parse_command : List ℕ → Option Command
unfolding read_command write_command
parse_command (cmd ∷ sts ∷ t0 ∷ t1 ∷ fnc ∷ fields) =
    if (cmd == 15) && (sts == 0)
    then (if fnc == 162
        then read_command (t0 + t1 * 256) fields
        else (if fnc == 170 then write_command (t0 + t1 * 256) fields else none))
    else none
parse_command _ = none

-- What `validateAddress` lets pass: a file type of the table, and numbers of one byte.
abbrev pub IsAddress : ℤ → ℕ → ℤ → ℤ → Type 0
IsAddress file_num ft elem_num sub_elem =
    (letter_of ft ≢ [])
    × (within 0 255 file_num ≡ true)
    × (within 0 255 elem_num ≡ true)
    × (within 0 255 sub_elem ≡ true)

pos-byte_of : (lo : ℕ) (i : ℤ) → within lo 255 i ≡ true → pos (byte_of i) ≡ i
unfolding within byte_of
pos-byte_of lo (pos n) h = ap pos (ground arith)
pos-byte_of lo (negsuc n) h = cc

require_cases :
    (b : Bool) (e : Error)
    → ((b ≡ true) × (require b e ≡ ok tt)) ⊎ ((require b e ≡ err e) × (b ≢ true))
require_cases true e = inl (refl, refl)
require_cases false e = inr (refl, λ p. cc)

letter_cases :
    (l : List ℕ)
    → ((l ≢ []) × (not (length l == 0) ≡ true)) ⊎ ((l ≡ []) × (not (length l == 0) ≡ false))
letter_cases [] = inr (refl, refl)
letter_cases (c ∷ cs) = inl ((λ p. cc), ground arith)

validate_address_cases :
    (file_num : ℤ) (ft : ℕ) (elem_num sub_elem : ℤ)
    → (IsAddress file_num ft elem_num sub_elem
        × (validate_address file_num elem_num sub_elem ft ≡ ok tt))
      ⊎ ((e : Error) × (validate_address file_num elem_num sub_elem ft ≡ err e)
          × (¬ (IsAddress file_num ft elem_num sub_elem)))
unfolding validate_address
validate_address_cases file_num ft elem_num sub_elem = elim (letter_cases (letter_of ft)) [
  | inr (none_, a) ↦ inr (pccc_unknown_file_type, rw a, λ h. h.0 none_)
  | inl (known, a) ↦ elim (require_cases (within 0 255 file_num) pccc_file_number) [
    | inr (b, bad) ↦ inr (pccc_file_number, rw a (rw b), λ h. bad h.1)
    | inl (good1, b) ↦ elim (require_cases (within 0 255 elem_num) pccc_element) [
      | inr (c, bad) ↦ inr (pccc_element, rw a (rw b (rw c)), λ h. bad h.2)
      | inl (good2, c) ↦ elim (require_cases (within 0 255 sub_elem) pccc_sub_element) [
        | inr (d, bad) ↦ inr (pccc_sub_element, rw a (rw b (rw c d)), λ h. bad h.3)
        | inl (good3, d) ↦ inl ((known, good1, good2, good3), rw a (rw b (rw c d)))
      ]
    ]
  ]
]

-- A typed read is encoded exactly when its address is valid and its size is 1 to 255 bytes, and the
-- frame is read by the format as that command.
pub encode_typed_read-parse_command :
    (tns ft : ℕ) (byte_size file_num elem_num sub_elem : ℤ)
    → tns < 65536
    → ((bytes : List ℕ) × IsAddress file_num ft elem_num sub_elem
        × (within 1 255 byte_size ≡ true)
        × (encode_typed_read tns byte_size file_num ft elem_num sub_elem ≡ ok bytes)
        × (parse_command bytes ≡ some (typed_read tns byte_size file_num ft elem_num sub_elem)))
      ⊎ ((e : Error) × (encode_typed_read tns byte_size file_num ft elem_num sub_elem ≡ err e)
          × (¬ (IsAddress file_num ft elem_num sub_elem × (within 1 255 byte_size ≡ true))))
unfolding encode_typed_read parse_command
encode_typed_read-parse_command tns ft byte_size file_num elem_num sub_elem small =
    elim (validate_address_cases file_num ft elem_num sub_elem) [
      | inr (e, refused, bad) ↦ inr (e, rw refused, λ h. bad h.0)
      | inl (address, valid) ↦ elim (require_cases (within 1 255 byte_size) pccc_byte_size) [
        | inr (a, bad) ↦ inr (pccc_byte_size, rw valid (rw a), λ h. bad h.1)
        | inl (sized, a) ↦ inl (
          15
              ∷ 0
              ∷ le16 tns (
                  162
                  ∷ byte_of byte_size
                  ∷ byte_of file_num
                  ∷ ft
                  ∷ byte_of elem_num
                  ∷ byte_of sub_elem
                  ∷ []),
          address,
          sized,
          rw valid (rw a),
          rw (join_le16 tns small) (
              rw (pos-byte_of 1 byte_size sized) (
                rw (pos-byte_of 0 file_num address.1)
                  (rw (pos-byte_of 0 elem_num address.2) (rw (pos-byte_of 0 sub_elem address.3))))),
        )
      ]
    ]

-- A typed write is encoded exactly when its address is valid and its data have 1 to 240 bytes, and
-- the frame is read by the format as that command.
pub encode_typed_write-parse_command :
    (tns ft : ℕ) (file_num elem_num sub_elem : ℤ) (bytes : List ℕ)
    → tns < 65536
    → ((frame : List ℕ) × IsAddress file_num ft elem_num sub_elem
        × (1 ≤ length bytes)
        × (length bytes ≤ 240)
        × (encode_typed_write tns file_num ft elem_num sub_elem bytes ≡ ok frame)
        × (parse_command frame ≡ some (typed_write tns file_num ft elem_num sub_elem bytes)))
      ⊎ ((e : Error) × (encode_typed_write tns file_num ft elem_num sub_elem bytes ≡ err e)
          × (¬ (
              IsAddress file_num ft elem_num sub_elem × (1 ≤ length bytes) × (length bytes ≤ 240))))
unfolding encode_typed_write parse_command
encode_typed_write-parse_command tns ft file_num elem_num sub_elem bytes small =
    elim (validate_address_cases file_num ft elem_num sub_elem) [
      | inr (e, refused, bad) ↦ inr (e, rw refused, λ h. bad h.0)
      | inl (address, valid) ↦ elim (require_cases (not (length bytes == 0)) pccc_write_empty) [
        | inr (a, bad) ↦ inr (pccc_write_empty, rw valid (rw a), λ h. bad (ground (arith, h.1)))
        | inl (some_, a) ↦ elim (require_cases (leb (length bytes) 240) pccc_write_too_large) [
          | inr (b, bad) ↦
              inr (pccc_write_too_large, rw valid (rw a (rw b)), λ h. bad (ground (arith, h.2)))
          | inl (fits, b) ↦ inl (
            15
                ∷ 0
                ∷ le16 tns
                    (170 ∷ byte_of file_num ∷ ft ∷ byte_of elem_num ∷ byte_of sub_elem ∷ bytes),
            address,
            ground arith,
            ground arith,
            rw valid (rw a (rw b)),
            rw (join_le16 tns small) (
                rw (pos-byte_of 0 file_num address.1)
                  (rw (pos-byte_of 0 elem_num address.2) (rw (pos-byte_of 0 sub_elem address.3)))),
          )
        ]
      ]
    ]

-- How a command ended: without an error, with an STS, or with an EXT STS behind STS 0xF0.
pub data Outcome : Type 0 where
  success : List ℕ → Outcome
  failure : ℕ → Outcome
  extended : ℕ → Outcome

-- A reply of a device: the command with the reply bit, the status, the transaction number, and the
-- data or the extended status.
unfoldable pub reply_frame : ℕ → ℕ → Outcome → List ℕ → List ℕ
reply_frame cmd tns (success bytes) more = (cmd + 64) ∷ 0 ∷ le16 tns bytes
reply_frame cmd tns (failure sts) more = (cmd + 64) ∷ sts ∷ le16 tns more
reply_frame cmd tns (extended x) more = (cmd + 64) ∷ 240 ∷ le16 tns (x ∷ more)

abbrev pub IsOutcome : Outcome → Type 0
IsOutcome (failure sts) = (sts ≢ 0) × (sts ≢ 240)
IsOutcome _ = Unit {0}

unfoldable pub result_of : ℕ → ℕ → Outcome → Reply × Option Error
result_of cmd n (success payload) =
    (record { command = cmd; sts = 0; tns = n; ext_sts = 0; bytes = payload }, none)
result_of cmd n (failure status) = (
  record { command = cmd; sts = status; tns = n; ext_sts = 0; bytes = [] },
  some (pccc_error status 0),
)
result_of cmd n (extended x) =
    (record { command = cmd; sts = 240; tns = n; ext_sts = x; bytes = [] }, some (pccc_error 240 x))

reply_bit : (cmd : ℕ) → cmd < 64 → ((cmd + 64) / 64 % 2 == 0) ≡ false
reply_bit cmd h = ground arith

reply_command : (cmd : ℕ) → cmd + 64 - 64 ≡ cmd
reply_command cmd = omega arith

-- A reply to a command below 64 is decoded to what it says, with an error for each status that is
-- not zero.
pub decode_reply-reply_frame :
    (cmd tns : ℕ) (outcome : Outcome) (more : List ℕ)
    → cmd < 64
    → tns < 65536
    → IsOutcome outcome
    → decode_reply (reply_frame cmd tns outcome more) ≡ result_of cmd tns outcome
unfolding decode_reply reply_status reply_payload reply_ext_sts reply_frame result_of
decode_reply-reply_frame cmd tns (success payload) more a b h =
    rw (decode_reply, reply_bit cmd a) (rw (reply_command cmd) (rw (join_le16 tns b)))
decode_reply-reply_frame cmd tns (failure sts) more a b h =
    rw (decode_reply, reply_bit cmd a)
      (rw (reply_command cmd) (rw (join_le16 tns b) (ground arith)))
decode_reply-reply_frame cmd tns (extended x) more a b h =
    rw (decode_reply, reply_bit cmd a) (rw (reply_command cmd) (rw (join_le16 tns b)))
