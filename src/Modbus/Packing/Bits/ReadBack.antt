-- ===== src/Modbus/Packing/Bits/ReadBack.antt =====
-- Reading bits out of a packed area, and the coils that were packed into a fresh one.
use goindustrial.Base.{
  ℕ, zero, suc, ◌+◌, ◌*◌, ◌/◌, ◌%◌, ◌<◌, ◌≤◌, ◌≡◌, refl, ◌∙◌, ap, List, [], ◌∷◌, ◌++◌, length,
  get_or, length-replicate, Bool, true, false, ◌||◌, ◌&&◌, ◌==◌, arith,
}
use mathlib.Core.Path.{ap₂}
use goindustrial.Base.{ok}
use goindustrial.Base.Bytes.{make_bytes}
use goindustrial.Base.Bytes.Access.{byte_at-lt, byte_at-append_right}
use goindustrial.Modbus.Packing.{bit_of, unpack_bits}
use goindustrial.Modbus.Packing.Bits.{
  bit_at, AreBytes, pack_step, pack_all, bit_at-set_bit, set_bit-AreBytes, length-pack_step,
}

-- The value that round j of the packing loop takes, when it starts at round i.
value_at : List Bool → ℕ → ℕ → Bool
value_at [] i j = false
value_at (v ∷ values) i j = (v && i == j) || value_at values (i + 1) j

value_at_past : (values : List Bool) (i j : ℕ) → j < i → value_at values i j ≡ false
unfolding value_at
value_at_past [] i j h = refl
value_at_past (v ∷ values) i j h = ground (arith, value_at_past values (i + 1) j)

bit_at-pack_step :
    (body : List ℕ) (v : Bool) (i j : ℕ)
    → AreBytes body
    → i / 8 < length body
    → bit_at (pack_step v i body) j ≡ (bit_at body j || (v && i == j))
unfolding pack_step
bit_at-pack_step body true i j bytes inside = bit_at-set_bit body i j bytes inside
bit_at-pack_step body false i j bytes inside = ground arith

pack_step-AreBytes :
    (body : List ℕ) (v : Bool) (i : ℕ)
    → AreBytes body
    → i / 8 < length body
    → AreBytes (pack_step v i body)
unfolding pack_step
pack_step-AreBytes body true i bytes inside = set_bit-AreBytes body i bytes inside
pack_step-AreBytes body false i bytes inside = bytes

or_assoc : (a b c : Bool) → ((a || b) || c) ≡ (a || (b || c))
or_assoc true b c = refl
or_assoc false b c = refl

bit_at-pack_all :
    (body : List ℕ) (values : List Bool) (i j : ℕ)
    → AreBytes body
    → i + length values ≤ length body * 8
    → bit_at (pack_all i values body) j ≡ (bit_at body j || value_at values i j)
unfolding pack_all value_at
bit_at-pack_all body [] i j bytes fits = ground arith
bit_at-pack_all body (v ∷ values) i j bytes fits =
    bit_at-pack_all (pack_step v i body) values (i + 1) j
      (pack_step-AreBytes body v i bytes (omega arith)) (omega (arith, length-pack_step v i body))
    ∙ ap (λ t. t || value_at values (i + 1) j) (bit_at-pack_step body v i j bytes (omega arith))
    ∙ or_assoc (bit_at body j) (v && i == j) (value_at values (i + 1) j)

-- What the reading loop gives.
unfoldable pub read_bits : ℕ → ℕ → List ℕ → List Bool
read_bits i zero body = []
read_bits i (suc n) body = bit_at body i ∷ read_bits (i + 1) n body

pub length-read_bits : (i n : ℕ) (body : List ℕ) → length (read_bits i n body) ≡ n
unfolding read_bits
length-read_bits i zero body = refl
length-read_bits i (suc n) body = ap suc (length-read_bits (i + 1) n body)

-- Within bounds the reading loop does not panic.
pub unpack_bits-read_bits :
    (pre body : List ℕ) (base i n : ℕ)
    → base ≡ length pre
    → i + n ≤ length body * 8
    → unpack_bits base i n (pre ++ body) ≡ ok (read_bits i n body)
unfolding unpack_bits read_bits bit_at
unpack_bits-read_bits pre body base i zero h fits = refl
unpack_bits-read_bits pre body base i (suc n) h fits = rw (
  byte_at-append_right pre body (base + i / 8) (i / 8) (omega arith),
  byte_at-lt body (i / 8) (omega arith),
  unpack_bits-read_bits pre body base (i + 1) n h (omega arith),
)

read_bits-value_at :
    (body : List ℕ) (values : List Bool) (i : ℕ)
    → ((j : ℕ) → i ≤ j → bit_at body j ≡ value_at values i j)
    → read_bits i (length values) body ≡ values
unfolding read_bits value_at
read_bits-value_at body [] i same = refl
read_bits-value_at body (v ∷ values) i same =
    ap₂ (λ (b : Bool) (t : List Bool). b ∷ t)
      (ground (arith, same i, value_at_past values (i + 1) i))
      (read_bits-value_at body values (i + 1) (λ j h. ground (arith, same j)))

get_or-make_bytes : (n k : ℕ) → get_or (make_bytes n) k 0 ≡ 0
get_or-make_bytes zero k = refl
get_or-make_bytes (suc n) zero = refl
get_or-make_bytes (suc n) (suc k) = get_or-make_bytes n k

zero_bits : (m : ℕ) → m < 8 → bit_of 0 m ≡ false
unfolding bit_of
zero_bits zero h = refl
zero_bits (suc zero) h = refl
zero_bits (suc (suc zero)) h = refl
zero_bits (suc (suc (suc zero))) h = refl
zero_bits (suc (suc (suc (suc zero)))) h = refl
zero_bits (suc (suc (suc (suc (suc zero))))) h = refl
zero_bits (suc (suc (suc (suc (suc (suc zero)))))) h = refl
zero_bits (suc (suc (suc (suc (suc (suc (suc zero))))))) h = refl
zero_bits (suc (suc (suc (suc (suc (suc (suc (suc m)))))))) h = absurd (omega arith)

bit_at-make_bytes : (n j : ℕ) → bit_at (make_bytes n) j ≡ false
unfolding bit_at
bit_at-make_bytes n j = rw (get_or-make_bytes n (j / 8)) (zero_bits (j % 8) (omega arith))

-- Coils packed into a fresh area of enough bytes are read back from it.
pub read_bits-pack_all :
    (n : ℕ) (values : List Bool)
    → length values ≤ n * 8
    → read_bits 0 (length values) (pack_all 0 values (make_bytes n)) ≡ values
read_bits-pack_all n values fits = read_bits-value_at _ values 0 λ j h.
    bit_at-pack_all (make_bytes n) values 0 j (λ k. omega (arith, get_or-make_bytes n k))
      (omega (arith, length-replicate {A = ℕ} n 0))
    ∙ ap (λ t. t || value_at values 0 j) (bit_at-make_bytes n j)
