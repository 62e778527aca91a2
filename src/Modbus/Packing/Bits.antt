-- ===== src/Modbus/Packing/Bits.antt =====
-- The bit loops: a fresh area is filled with the coils, and they are read back.
mod Tables
pub mod ReadBack
use goindustrial.Base.{
  ℕ, zero, suc, ◌+◌, ◌*◌, ◌/◌, ◌%◌, ◌^◌, ◌<◌, ◌≤◌, ◌≡◌, ◌≢◌, ◌⊎◌, inl, inr, refl, sym, ◌∙◌, ap,
  List, [], ◌∷◌, ◌++◌, length, set, get_or, length-set, get_or-set_self, get_or-set_ne, Bool, true,
  false, ◌||◌, ◌==◌, ==_iff, ==_self, Bool-cases, bit_or, arith,
}
use mathlib.Core.Path.{subst}
use goindustrial.Base.{Go, ok, ◌>>=◌}
use goindustrial.Base.Bytes.{IsByte, byte_at, store_at}
use goindustrial.Base.Bytes.Access.{
  byte_at-lt, store_at-lt, byte_at-append_right, store_at-append_right,
}
use goindustrial.Modbus.Packing.{bit_of, pack_bit, pack_bits, unpack_bits}
use goindustrial.Modbus.Packing.Bits.Tables.{bit_of-bit_or, bit_or-IsByte}

-- Bit j of a packed area.
unfoldable pub bit_at : List ℕ → ℕ → Bool
bit_at body j = bit_of (get_or body (j / 8) 0) (j % 8)

abbrev pub AreBytes : List ℕ → Type 0
AreBytes body = (k : ℕ) → get_or body k 0 < 256

set_bit : ℕ → List ℕ → List ℕ
set_bit i body = set body (i / 8) (bit_or (get_or body (i / 8) 0) (2 ^ (i % 8)))

index_split : (i j : ℕ) → i / 8 ≡ j / 8 → (i % 8 == j % 8) ≡ (i == j)
index_split i j h = ground arith

or_false : (b : Bool) → (b || false) ≡ b
or_false true = refl
or_false false = refl

bit_at-set_bit :
    (body : List ℕ) (i j : ℕ)
    → AreBytes body
    → i / 8 < length body
    → bit_at (set_bit i body) j ≡ (bit_at body j || i == j)
unfolding bit_at set_bit
bit_at-set_bit body i j bytes inside = elim (Bool-cases (i / 8 == j / 8)) [
  | inl same ↦
      let e : i / 8 ≡ j / 8 = ground arith in
      rw (← e, get_or-set_self body (i / 8) (bit_or (get_or body (i / 8) 0) (2 ^ (i % 8))) 0 inside)
        (bit_of-bit_or (i % 8) (j % 8) _ (omega arith) (omega arith) (bytes (i / 8))
          ∙ ap (λ t. bit_of (get_or body (i / 8) 0) (j % 8) || t) (index_split i j e))
  | inr other ↦
      let ne : i / 8 ≢ j / 8 = ground arith in
      let far : (i == j) ≡ false = ground arith in
      rw
        (
          get_or-set_ne body (i / 8) (j / 8) (bit_or (get_or body (i / 8) 0) (2 ^ (i % 8))) 0 ne,
          far,
        )
        (sym (or_false _))
]

set_bit-AreBytes :
    (body : List ℕ) (i : ℕ) → AreBytes body → i / 8 < length body → AreBytes (set_bit i body)
unfolding set_bit
set_bit-AreBytes body i bytes inside k = elim (Bool-cases (i / 8 == k)) [
  | inl same ↦
      let e : i / 8 ≡ k = ground arith in
      subst
        (λ t. get_or (set body (i / 8) (bit_or (get_or body (i / 8) 0) (2 ^ (i % 8)))) t 0 < 256) e
        (rw (get_or-set_self body (i / 8) (bit_or (get_or body (i / 8) 0) (2 ^ (i % 8))) 0 inside)
          (bit_or-IsByte (i % 8) _ (omega arith) (bytes (i / 8))))
  | inr other ↦
      let ne : i / 8 ≢ k = ground arith in
      rw (get_or-set_ne body (i / 8) k (bit_or (get_or body (i / 8) 0) (2 ^ (i % 8))) 0 ne)
        (bytes k)
]

-- What the loop makes of the packed area.
pack_step : Bool → ℕ → List ℕ → List ℕ
pack_step false i body = body
pack_step true i body = set_bit i body

pub pack_all : ℕ → List Bool → List ℕ → List ℕ
pack_all i [] body = body
pack_all i (v ∷ values) body = pack_all (i + 1) values (pack_step v i body)

length-pack_step : (v : Bool) (i : ℕ) (body : List ℕ) → length (pack_step v i body) ≡ length body
unfolding pack_step set_bit
length-pack_step false i body = refl
length-pack_step true i body = length-set body (i / 8) _

pub length-pack_all :
    (i : ℕ) (values : List Bool) (body : List ℕ) → length (pack_all i values body) ≡ length body
unfolding pack_all
length-pack_all i [] body = refl
length-pack_all i (v ∷ values) body =
    length-pack_all (i + 1) values (pack_step v i body) ∙ length-pack_step v i body

pack_bit-step :
    (pre body : List ℕ) (base i : ℕ) (v : Bool)
    → base ≡ length pre
    → i / 8 < length body
    → pack_bit base i v (pre ++ body) ≡ ok (pre ++ pack_step v i body)
unfolding pack_bit pack_step set_bit
pack_bit-step pre body base i false h inside = refl
pack_bit-step pre body base i true h inside =
    let place : base + i / 8 ≡ length pre + i / 8 = omega arith in
    rw (byte_at-append_right pre body (base + i / 8) (i / 8) place, byte_at-lt body (i / 8) inside)
      (store_at-append_right pre body (base + i / 8) (i / 8) _ place inside)

-- The loop fills the area behind the prefix, and does not panic if the area has a bit for each value.
pub pack_bits-pack_all :
    (pre body : List ℕ) (base i : ℕ) (values : List Bool)
    → base ≡ length pre
    → i + length values ≤ length body * 8
    → pack_bits base i values (pre ++ body) ≡ ok (pre ++ pack_all i values body)
unfolding pack_bits pack_all
pack_bits-pack_all pre body base i [] h fits = refl
pack_bits-pack_all pre body base i (v ∷ values) h fits =
    rw (pack_bit-step pre body base i v h (omega arith)) (
      pack_bits-pack_all pre (pack_step v i body) base (i + 1) values h
        (omega (arith, length-pack_step v i body)))
