-- ===== src/Modbus/Protocol/Parse.antt =====
-- What the response parsers answer on any bytes; none of them panics.
use goindustrial.Base.{
  ℕ, zero, suc, ◌+◌, ◌*◌, ◌≤◌, ◌≡◌, ◌≢◌, ◌⊎◌, inl, inr, refl, List, [], ◌∷◌, true, false, ◌&&◌, leb,
  ◌==◌, length, if◌then◌else◌, Bool-cases, All, append-nil, get_or, arith,
}
use goindustrial.Base.{
  Error, ok, err, panic, require, >>=-ne-panic, require-ne-panic, invalid_response_length,
  empty_response, invalid_coil_value, invalid_response_format, invalid_value,
}
use goindustrial.Modbus.Frame.RoundTrip.{join_u16}
use goindustrial.Base.Bytes.{be16, IsU16}
use goindustrial.Base.Bytes.Access.{byte_at-lt}
use goindustrial.Modbus.Packing.{ceil_div_eight}
use goindustrial.Modbus.Packing.Registers.{
  words, length-words, unpack_registers-words, unpack_registers_total,
}
use goindustrial.Modbus.Packing.Bits.ReadBack.{read_bits, unpack_bits-read_bits}
use goindustrial.Modbus.Protocol.{
  parse_bit_response, parse_register_response, parse_write_single_coil_response,
  parse_write_single_register_response, parse_write_multiple_coils_response,
  parse_write_multiple_registers_response, parse_objects, parse_read_device_identification_response,
}

-- On every response with a count byte, the bits of the body are returned exactly when the count is
-- the body's length and the one that the quantity needs; else the length is reported as invalid.
pub parse_bit_response-eq :
    (count quantity : ℕ) (body : List ℕ)
    → parse_bit_response (count ∷ body) quantity ≡ (
        if (length body == count) && (count == ceil_div_eight quantity)
        then ok (read_bits 0 quantity body)
        else err invalid_response_length)
unfolding parse_bit_response
parse_bit_response-eq count quantity body = elim (Bool-cases (length body == count)) [
  | inl fits ↦ elim (Bool-cases (count == ceil_div_eight quantity)) [
    | inl right ↦
        let room : 0 + quantity ≤ length body * 8 = unfold ceil_div_eight in ground arith in
        ground (arith, unpack_bits-read_bits (count ∷ []) body 1 0 quantity refl room)
    | inr wrong ↦ ground arith
  ]
  | inr other ↦ ground arith
]

parse_bit_response_empty : (quantity : ℕ) → parse_bit_response [] quantity ≡ err empty_response
unfolding parse_bit_response
parse_bit_response_empty quantity = refl

-- The words of the register response come back.
pub parse_register_response-words :
    (values : List ℕ)
    → All IsU16 values
    → parse_register_response ((length values * 2) ∷ words values) (length values) ≡ ok values
unfolding parse_register_response
parse_register_response-words values fits =
    let read = unpack_registers-words ((length values * 2) ∷ []) values [] 1 0 fits refl in
    let plain = rw (append-nil (words values)) at read in ground (arith, length-words values, plain)

parse_register_response_checked :
    (count quantity : ℕ) (body : List ℕ)
    → length body ≡ count
    → count ≡ quantity * 2
    → (values : List ℕ) × (parse_register_response (count ∷ body) quantity ≡ ok values)
      × (length values ≡ quantity)
unfolding parse_register_response
parse_register_response_checked count quantity body fits right =
    let (values, read, n) = unpack_registers_total 1 0 quantity (count ∷ body) (omega arith) in
    (values, ground arith, n)

-- From any bytes the parser gives as many registers as were asked for, or an error, and no panic.
pub parse_register_response_total :
    (bytes : List ℕ) (quantity : ℕ)
    → ((values : List ℕ) × (parse_register_response bytes quantity ≡ ok values)
        × (length values ≡ quantity))
      ⊎ ((e : Error) × (parse_register_response bytes quantity ≡ err e))
parse_register_response_total [] quantity =
    inr (empty_response, unfold parse_register_response in refl)
parse_register_response_total (count ∷ body) quantity =
    elim (Bool-cases ((length body == count) && (count == quantity * 2))) [
      | inl good ↦
          inl (parse_register_response_checked count quantity body (ground arith) (ground arith))
      | inr bad ↦ inr (invalid_response_length, unfold parse_register_response in ground arith)
    ]

pub parse_write_single_coil_response-be16 :
    (address word : ℕ)
    → IsU16 address
    → IsU16 word
    → parse_write_single_coil_response (be16 address (be16 word [])) ≡ (
        if word == 0xFF00
        then ok (address, true)
        else if word == 0
        then ok (address, false)
        else err (invalid_coil_value address word))
unfolding parse_write_single_coil_response
parse_write_single_coil_response-be16 address word ha hw =
    rw (join_u16 address ha, join_u16 word hw)

pub parse_write_single_register_response-be16 :
    (address value : ℕ)
    → IsU16 address
    → IsU16 value
    → parse_write_single_register_response (be16 address (be16 value [])) ≡ ok (address, value)
unfolding parse_write_single_register_response
parse_write_single_register_response-be16 address value ha hw =
    rw (join_u16 address ha, join_u16 value hw)

pub parse_write_multiple_coils_response-be16 :
    (address quantity : ℕ)
    → IsU16 address
    → IsU16 quantity
    → parse_write_multiple_coils_response (be16 address (be16 quantity [])) ≡ ok (address, quantity)
unfolding parse_write_multiple_coils_response
parse_write_multiple_coils_response-be16 address quantity ha hw =
    rw (join_u16 address ha, join_u16 quantity hw)

pub parse_write_multiple_registers_response-be16 :
    (address quantity : ℕ)
    → IsU16 address
    → IsU16 quantity
    → parse_write_multiple_registers_response (be16 address (be16 quantity []))
      ≡ ok (address, quantity)
unfolding parse_write_multiple_registers_response
parse_write_multiple_registers_response-be16 address quantity ha hw =
    rw (join_u16 address ha, join_u16 quantity hw)

parse_objects-ne-panic : (bytes : List ℕ) (offset n : ℕ) → parse_objects bytes offset n ≢ panic
unfolding parse_objects
parse_objects-ne-panic bytes offset zero = λ p. cc
parse_objects-ne-panic bytes offset (suc n) = elim (Bool-cases (leb (offset + 2) (length bytes))) [
  | inl room ↦
      let size = get_or bytes (offset + 1) 0 in
      let rest = parse_objects-ne-panic bytes (offset + 2 + size) n in
      rw
        (room, byte_at-lt bytes offset (ground arith), byte_at-lt bytes (offset + 1) (ground arith))
        (>>=-ne-panic (require (leb (offset + 2 + size) (length bytes)) invalid_response_format) _
          (require-ne-panic _ _)
          (λ _ _. >>=-ne-panic (parse_objects bytes (offset + 2 + size) n) _ rest (λ _ _ p. cc)))
  | inr short ↦ rw short (λ p. cc)
]

-- Whatever bytes a device answers, the parser of its identification does not panic.
pub parse_read_device_identification_response-ne-panic :
    (bytes : List ℕ) → parse_read_device_identification_response bytes ≢ panic
unfolding parse_read_device_identification_response
parse_read_device_identification_response-ne-panic (a ∷ b ∷ c ∷ d ∷ e ∷ f ∷ body) =
    >>=-ne-panic (require (leb 6 (length (a ∷ b ∷ c ∷ d ∷ e ∷ f ∷ body))) invalid_response_length) _
      (require-ne-panic _ _)
      (λ _ _. >>=-ne-panic (require (a == 0x0E) invalid_value) _ (require-ne-panic _ _) (λ _ _.
        >>=-ne-panic (parse_objects (a ∷ b ∷ c ∷ d ∷ e ∷ f ∷ body) 6 f) _
          (parse_objects-ne-panic _ 6 f) (λ _ _ p. cc)))
parse_read_device_identification_response-ne-panic _ = λ p. cc
