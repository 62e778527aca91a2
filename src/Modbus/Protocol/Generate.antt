-- ===== src/Modbus/Protocol/Generate.antt =====
-- The bytes of each generated request.
use goindustrial.Base.{
  ℕ, suc, ◌+◌, ◌*◌, ◌/◌, ◌<◌, ◌≤◌, ◌≡◌, refl, ap, List, [], ◌∷◌, Bool, true, false, not, ◌||◌, ltb,
  ◌==◌, length, length-replicate, arith,
}
use goindustrial.Base.{ok}
use goindustrial.Base.Bytes.{u8, u16, be16, make_bytes}
use goindustrial.Modbus.Packing.{ceil_div_eight}
use goindustrial.Modbus.Packing.Registers.{words, pack_registers-words}
use goindustrial.Modbus.Packing.Bits.{pack_all, pack_bits-pack_all}
use goindustrial.Modbus.Protocol.{
  generate_read_request, generate_write_single_coil_request, generate_write_single_register_request,
  generate_write_multiple_coils_request, generate_write_multiple_registers_request,
  generate_read_write_multiple_registers_request,
}

-- A count that the guard `quantity == 0 || quantity > max` lets pass.
abbrev pub InLimits : ℕ → ℕ → Type 0
InLimits quantity max_quantity = (1 ≤ quantity) × (quantity ≤ max_quantity)

pub in_limits :
    (quantity max_quantity : ℕ)
    → InLimits quantity max_quantity
    → not (quantity == 0 || ltb max_quantity quantity) ≡ true
in_limits quantity max_quantity h = ground arith

pub generate_read_request-eq :
    (address quantity max_quantity : ℕ)
    → InLimits quantity max_quantity
    → generate_read_request address quantity max_quantity ≡ ok (be16 address (be16 quantity []))
unfolding generate_read_request
generate_read_request-eq address quantity max_quantity h = rw (in_limits quantity max_quantity h)

-- The value word of Write Single Coil.
abbrev pub coil_word : Bool → ℕ
coil_word true = 0xFF00
coil_word false = 0x0000

pub generate_write_single_coil_request-eq :
    (address : ℕ) (value : Bool)
    → generate_write_single_coil_request address value
      ≡ ok (be16 address (be16 (coil_word value) []))
unfolding generate_write_single_coil_request
generate_write_single_coil_request-eq address true = refl
generate_write_single_coil_request-eq address false = refl

pub generate_write_single_register_request-eq :
    (address value : ℕ)
    → generate_write_single_register_request address value ≡ ok (be16 address (be16 value []))
unfolding generate_write_single_register_request
generate_write_single_register_request-eq address value = refl

u16_small : (n : ℕ) → n < 65536 → u16 n ≡ n
u16_small n h = omega arith

u8_small : (n : ℕ) → n < 256 → u8 n ≡ n
u8_small n h = omega arith

make_bytes_five : (n : ℕ) → make_bytes (5 + n) ≡ 0 ∷ 0 ∷ 0 ∷ 0 ∷ 0 ∷ make_bytes n
make_bytes_five n = ap make_bytes {x = 5 + n} {y = suc (suc (suc (suc (suc n))))} (omega arith)

make_bytes_nine : (n : ℕ) → make_bytes (9 + n) ≡ 0 ∷ 0 ∷ 0 ∷ 0 ∷ 0 ∷ 0 ∷ 0 ∷ 0 ∷ 0 ∷ make_bytes n
make_bytes_nine n =
    ap make_bytes {x = 9 + n} {y = suc (suc (suc (suc (suc (suc (suc (suc (suc n))))))))}
      (omega arith)

pub generate_write_multiple_registers_request-eq :
    (address : ℕ) (values : List ℕ)
    → InLimits (length values) 123
    → generate_write_multiple_registers_request address values
      ≡ ok (be16 address (be16 (length values) (length values * 2 ∷ words values)))
unfolding generate_write_multiple_registers_request
generate_write_multiple_registers_request-eq address values h =
    let count = length values in
    rw
      (
        in_limits count 123 h,
        make_bytes_five (count * 2),
        u16_small count (omega arith),
        u8_small (count * 2) (omega arith),
      )
      (pack_registers-words
        (u8 (address / 256) ∷ u8 address ∷ u8 (count / 256) ∷ u8 count ∷ (count * 2) ∷ []) values 5
        0 (omega arith))

pub generate_write_multiple_coils_request-eq :
    (address : ℕ) (values : List Bool)
    → InLimits (length values) 1968
    → let n = ceil_div_eight (length values) in
      generate_write_multiple_coils_request address values
      ≡ ok (be16 address (be16 (length values) (n ∷ pack_all 0 values (make_bytes n))))
unfolding generate_write_multiple_coils_request
generate_write_multiple_coils_request-eq address values h =
    let n = ceil_div_eight (length values) in
    let count = length values in
    let small : n < 256 = unfold ceil_div_eight in omega arith in
    let room : 0 + count ≤ length (make_bytes n) * 8 =
      unfold ceil_div_eight in omega (arith, length-replicate {A = ℕ} n 0) in
    rw (in_limits count 1968 h, make_bytes_five n, u16_small count (omega arith), u8_small n small)
      (pack_bits-pack_all (u8 (address / 256) ∷ u8 address ∷ u8 (count / 256) ∷ u8 count ∷ n ∷ [])
        (make_bytes n) 5 0 values refl room)

pub generate_read_write_multiple_registers_request-eq :
    (read_address read_quantity write_address : ℕ) (values : List ℕ)
    → InLimits read_quantity 125
    → InLimits (length values) 121
    → generate_read_write_multiple_registers_request read_address read_quantity write_address values
      ≡ ok (
          be16 read_address (
            be16 read_quantity
              (be16 write_address (be16 (length values) (length values * 2 ∷ words values)))))
unfolding generate_read_write_multiple_registers_request
generate_read_write_multiple_registers_request-eq read_address read_quantity write_address values h
      k =
    let count = length values in
    rw
      (
        in_limits read_quantity 125 h,
        in_limits count 121 k,
        make_bytes_nine (count * 2),
        u16_small count (omega arith),
        u8_small (count * 2) (omega arith),
      )
      (pack_registers-words
        (u8 (read_address / 256)
          ∷ u8 read_address
          ∷ u8 (read_quantity / 256)
          ∷ u8 read_quantity
          ∷ u8 (write_address / 256)
          ∷ u8 write_address
          ∷ u8 (count / 256)
          ∷ u8 count
          ∷ (count * 2)
          ∷ [])
        values 9 0 (omega arith))
