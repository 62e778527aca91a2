-- ===== src/Modbus/Packing/Registers.antt =====
-- The register loops against a plain description of the bytes.
use goindustrial.Base.{
  ℕ, zero, suc, ◌+◌, ◌*◌, ◌≤◌, ◌≡◌, refl, ap, List, [], ◌∷◌, ◌++◌, length, length-append,
  append_assoc, All, get_or, arith,
}
use mathlib.Core.Path.{subst, subst₂}
use goindustrial.Base.{ok}
use goindustrial.Base.Bytes.{IsU16, be16, make_bytes}
use goindustrial.Base.Bytes.Access.{u16_at-append, put_u16-append, byte_at-lt}
use goindustrial.Modbus.Packing.{pack_registers, unpack_registers}

-- The words of the values, one after the other.
abbrev pub words : List ℕ → List ℕ
words [] = []
words (v ∷ values) = be16 v (words values)

pub length-words : (values : List ℕ) → length (words values) ≡ length values * 2
length-words [] = refl
length-words (v ∷ values) = omega (arith, length-words values)

make_bytes_two : (n : ℕ) → make_bytes (suc n * 2) ≡ 0 ∷ 0 ∷ make_bytes (n * 2)
make_bytes_two n = ap make_bytes {x = suc n * 2} {y = suc (suc (n * 2))} (omega arith)

-- The loop fills a fresh tail with the words of the values.
pub pack_registers-words :
    (pre values : List ℕ) (base i : ℕ)
    → base + i * 2 ≡ length pre
    → pack_registers base i values (pre ++ make_bytes (length values * 2))
      ≡ ok (pre ++ words values)
unfolding pack_registers
pack_registers-words pre [] base i h = refl
pack_registers-words pre (v ∷ values) base i h =
    let zeros = make_bytes (length values * 2) in
    rw (make_bytes_two (length values), put_u16-append pre zeros 0 0 v (base + i * 2) h)
      (subst₂ (λ l m. pack_registers base (i + 1) values l ≡ ok m)
        (append_assoc pre (be16 v []) zeros) (append_assoc pre (be16 v []) (words values))
        (pack_registers-words (pre ++ be16 v []) values base (i + 1)
          (omega (arith, length-append pre (be16 v [])))))

-- The loop reads the words back, whatever follows them.
pub unpack_registers-words :
    (pre values rest : List ℕ) (base i : ℕ)
    → All IsU16 values
    → base + i * 2 ≡ length pre
    → unpack_registers base i (length values) (pre ++ (words values ++ rest)) ≡ ok values
unfolding unpack_registers
unpack_registers-words pre [] rest base i fits h = refl
unpack_registers-words pre (v ∷ values) rest base i (fits, more) h =
    let tail =
      subst (λ l. unpack_registers base (i + 1) (length values) l ≡ ok values)
        (append_assoc pre (be16 v []) (words values ++ rest))
        (unpack_registers-words (pre ++ be16 v []) values rest base (i + 1) more
          (omega (arith, length-append pre (be16 v [])))) in
    rw (u16_at-append pre (words values ++ rest) v (base + i * 2) fits h, tail)

-- Within bounds the reading loop does not panic, and gives as many words as it has rounds.
pub unpack_registers_total :
    (base i n : ℕ) (bytes : List ℕ)
    → base + (i + n) * 2 ≤ length bytes
    → (values : List ℕ) × (unpack_registers base i n bytes ≡ ok values) × (length values ≡ n)
unfolding unpack_registers
unpack_registers_total base i zero bytes h = ([], refl, refl)
unpack_registers_total base i (suc n) bytes h =
    let (values, read, count) = unpack_registers_total base (i + 1) n bytes (omega arith) in
    let hi = byte_at-lt bytes (base + i * 2) (omega arith) in
    let lo = byte_at-lt bytes (base + i * 2 + 1) (omega arith) in
    (
      (get_or bytes (base + i * 2) 0 * 256 + get_or bytes (base + i * 2 + 1) 0) ∷ values,
      rw (hi, lo, read),
      omega arith,
    )
