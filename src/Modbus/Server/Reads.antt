-- ===== src/Modbus/Server/Reads.antt =====
-- The answers to well-formed requests.
use goindustrial.Base.{
  ℕ, suc, ◌+◌, ◌*◌, ◌≤◌, ◌≡◌, refl, ap, List, [], ◌∷◌, Bool, length, length-replicate, arith,
}
use goindustrial.Base.{Go, ok}
use goindustrial.Base.Bytes.{IsU16, u8, be16, make_bytes}
use goindustrial.Modbus.Frame.{Mbap, Request}
use goindustrial.Modbus.Frame.RoundTrip.{join_u16}
use goindustrial.Modbus.Packing.{ceil_div_eight}
use goindustrial.Modbus.Packing.Registers.{words, pack_registers-words}
use goindustrial.Modbus.Packing.Bits.{pack_all, pack_bits-pack_all}
use goindustrial.Modbus.Protocol.Generate.{InLimits, in_limits}
use goindustrial.Modbus.Server.{respond, handle_read_bit_values, handle_read_register_values}

abbrev pub request : Mbap → ℕ → List ℕ → Request
request m function_code payload = record {
  mbap = m;
  pdu = record { function_code = function_code; payload = payload };
}

pub make_bytes_suc : (n : ℕ) → make_bytes (1 + n) ≡ 0 ∷ make_bytes n
make_bytes_suc n = ap make_bytes {x = 1 + n} {y = suc n} (omega arith)

module _ {S : Type 0} (m : Mbap) (function_code address quantity max_quantity : ℕ) (s : S) where
  pub handle_read_bit_values-eq :
      (read : S → ℕ → ℕ → Go (List Bool)) (values : List Bool)
      → IsU16 address
      → InLimits quantity max_quantity
      → max_quantity ≤ 2000
      → read s address quantity ≡ ok values
      → length values ≡ quantity
      → let n = ceil_div_eight quantity in
        let req = request m function_code (be16 address (be16 quantity [])) in
        handle_read_bit_values max_quantity read req s
        ≡ (s, ok (respond req (n ∷ pack_all 0 values (make_bytes n))))
  unfolding handle_read_bit_values
  handle_read_bit_values-eq read values ha h small e count =
      let n = ceil_div_eight quantity in
      let n_fits : u8 n ≡ n = unfold ceil_div_eight in omega arith in
      let room : 0 + length values ≤ length (make_bytes n) * 8 =
        unfold ceil_div_eight in omega (arith, length-replicate {A = ℕ} n 0) in
      rw (
        join_u16 address ha,
        join_u16 quantity (omega arith),
        in_limits quantity max_quantity h,
        e,
        make_bytes_suc n,
        n_fits,
        pack_bits-pack_all (n ∷ []) (make_bytes n) 1 0 values refl room,
      )

  pub handle_read_register_values-eq :
      (read : S → ℕ → ℕ → Go (List ℕ)) (values : List ℕ)
      → IsU16 address
      → InLimits quantity max_quantity
      → max_quantity ≤ 125
      → read s address quantity ≡ ok values
      → length values ≡ quantity
      → let req = request m function_code (be16 address (be16 quantity [])) in
        handle_read_register_values max_quantity read req s
        ≡ (s, ok (respond req ((length values * 2) ∷ words values)))
  unfolding handle_read_register_values
  handle_read_register_values-eq read values ha h small e count =
      let n = length values * 2 in
      let n_fits : u8 n ≡ n = omega arith in
      rw (
        join_u16 address ha,
        join_u16 quantity (omega arith),
        in_limits quantity max_quantity h,
        e,
        make_bytes_suc n,
        n_fits,
        pack_registers-words (n ∷ []) values 1 0 refl,
      )
