-- ===== src/Modbus/Packing/Bits/Tables.antt =====
-- The bits of a byte, checked for every byte and every bit index by evaluation.
use goindustrial.Base.{
  ℕ, zero, suc, ◌<◌, ◌^◌, ◌≡◌, refl, Bool, true, false, ◌&&◌, ◌||◌, ◌==◌, ltb, ltb→lt, bit_or,
  arith,
}
use goindustrial.Modbus.Packing.{bit_of}

-- A test at every number under a bound.
tests : (ℕ → Bool) → ℕ → Bool
tests test zero = true
tests test (suc bound) = tests test bound && test bound

tests_lem : (test : ℕ → Bool) (bound k : ℕ) → k < bound → tests test bound ≡ true → test k ≡ true
unfolding tests
tests_lem test zero k below passed = absurd (omega arith)
tests_lem test (suc bound) k below passed = ground (arith, tests_lem test bound k)

same : Bool → Bool → Bool
same true b = b
same false true = false
same false false = true

same→eq : (a b : Bool) → same a b ≡ true → a ≡ b
unfolding same
same→eq a b h = ground arith

-- Setting bit k of byte b, and then reading bit m.
bit_row : ℕ → ℕ → ℕ → Bool
bit_row k m b = same (bit_of (bit_or b (2 ^ k)) m) (bit_of b m || k == m)

bit_table : tests (λ k. tests (λ m. tests (bit_row k m) 256) 8) 8 ≡ true
unfolding tests same bit_row bit_of
bit_table = refl

byte_table : tests (λ k. tests (λ b. ltb (bit_or b (2 ^ k)) 256) 256) 8 ≡ true
unfolding tests
byte_table = refl

pub bit_of-bit_or :
    (k m b : ℕ) → k < 8 → m < 8 → b < 256 → bit_of (bit_or b (2 ^ k)) m ≡ (bit_of b m || k == m)
unfolding bit_row
bit_of-bit_or k m b hk hm hb =
    let for_k = tests_lem (λ k. tests (λ m. tests (bit_row k m) 256) 8) 8 k hk bit_table in
    let for_m = tests_lem (λ m. tests (bit_row k m) 256) 8 m hm for_k in
    same→eq _ _ (tests_lem (bit_row k m) 256 b hb for_m)

pub bit_or-IsByte : (k b : ℕ) → k < 8 → b < 256 → bit_or b (2 ^ k) < 256
bit_or-IsByte k b hk hb =
    let for_k = tests_lem (λ k. tests (λ b. ltb (bit_or b (2 ^ k)) 256) 256) 8 k hk byte_table in
    ltb→lt _ _ (tests_lem (λ b. ltb (bit_or b (2 ^ k)) 256) 256 b hb for_k)
