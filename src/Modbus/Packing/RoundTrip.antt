-- ===== src/Modbus/Packing/RoundTrip.antt =====
-- What a packing loop wrote, the unpacking loop reads.
use goindustrial.Base.{
  ℕ, ◌+◌, ◌*◌, ◌≤◌, ◌≡◌, ◌∙◌, ap, List, [], ◌++◌, Bool, append-nil, length, length-replicate, All,
  arith,
}
use goindustrial.Base.{ok, ◌>>=◌}
use goindustrial.Base.Bytes.{IsU16, make_bytes}
use goindustrial.Modbus.Packing.{pack_bits, unpack_bits, pack_registers, unpack_registers}
use goindustrial.Modbus.Packing.Registers.{words, pack_registers-words, unpack_registers-words}
use goindustrial.Modbus.Packing.Bits.{pack_all, length-pack_all, pack_bits-pack_all}
use goindustrial.Modbus.Packing.Bits.ReadBack.{unpack_bits-read_bits, read_bits-pack_all}

module _ (pre : List ℕ) (base : ℕ) (h : base ≡ length pre) where
  -- Bits that are packed behind a prefix, into zero bytes with room for them, are unpacked from
  -- there as they were, and neither loop panics.
  pub unpack_bits-pack_bits :
      (n : ℕ) (values : List Bool)
      → length values ≤ n * 8
      → (pack_bits base 0 values (pre ++ make_bytes n) >>= λ bytes.
          unpack_bits base 0 (length values) bytes)
        ≡ ok values
  unpack_bits-pack_bits n values fits =
      let body = pack_all 0 values (make_bytes n) in
      let room : 0 + length values ≤ length (make_bytes n) * 8 =
        omega (arith, length-replicate {A = ℕ} n 0) in
      let filled : 0 + length values ≤ length body * 8 =
        omega (arith, length-pack_all 0 values (make_bytes n), length-replicate {A = ℕ} n 0) in
      rw (pack_bits-pack_all pre (make_bytes n) base 0 values h room) (
        unpack_bits-read_bits pre body base 0 (length values) h filled
        ∙ ap ok (read_bits-pack_all n values fits))

  -- 16-bit registers that are packed behind a prefix, into two zero bytes for each, are unpacked
  -- from there as they were, and neither loop panics.
  pub unpack_registers-pack_registers :
      (values : List ℕ)
      → All IsU16 values
      → (pack_registers base 0 values (pre ++ make_bytes (length values * 2)) >>= λ bytes.
          unpack_registers base 0 (length values) bytes)
        ≡ ok values
  unpack_registers-pack_registers values fits =
      rw (pack_registers-words pre values base 0 (omega arith)) (
        rw (append-nil (words values)) at
          (unpack_registers-words pre values [] base 0 fits (omega arith)))
