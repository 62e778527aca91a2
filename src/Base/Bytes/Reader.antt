-- ===== src/Base/Bytes/Reader.antt =====
-- Readers over the bytes that are left: `io.ReadFull`, and `binary.Read` of numbers, which reads
-- through it. At the end of the input the error is `io.EOF`, after a part `io.ErrUnexpectedEOF`.
use Prim.Native.Nat.{ℕ, zero, suc, ◌+◌, ◌*◌, ◌/◌, ◌<◌}
use mathlib.Core.Path.{◌≡◌, refl, ap}
use mathlib.Core.Logic.{◌⊎◌, inl, inr}
use mathlib.Core.List.{List, [], ◌∷◌, ◌++◌}
use native.Mathlib.Omega.{arith}
use goindustrial.Base.Lists.{length}
use goindustrial.Base.Outcome.{Go, Error, ok, err, panic, io_eof, io_unexpected_eof}
use goindustrial.Base.Bytes.{u8}

-- What a reader gives: a value, and the bytes behind it.
abbrev pub Read : Type 0 → Type 0
Read A = Go (A × List ℕ)

cut_short : Error → Error
cut_short io_eof = io_unexpected_eof
cut_short e = e

after_byte : ℕ → Read (List ℕ) → Read (List ℕ)
unfolding cut_short
after_byte b (ok (bytes, rest)) = ok (b ∷ bytes, rest)
after_byte b (err e) = err (cut_short e)
after_byte b panic = panic

-- `io.ReadFull` into a slice of n bytes
unfoldable pub read_full : ℕ → List ℕ → Read (List ℕ)
unfolding after_byte
read_full zero input = ok ([], input)
read_full (suc n) [] = err io_eof
read_full (suc n) (b ∷ input) = after_byte b (read_full n input)

unfoldable pub read_u8 : List ℕ → Read ℕ
read_u8 [] = err io_eof
read_u8 (b ∷ rest) = ok (b, rest)

-- Two bytes, the high one first
unfoldable pub read_be16 : List ℕ → Read ℕ
read_be16 [] = err io_eof
read_be16 (b ∷ []) = err io_unexpected_eof
read_be16 (hi ∷ lo ∷ rest) = ok (hi * 256 + lo, rest)

-- Two and four bytes, the low one first
unfoldable pub read_le16 : List ℕ → Read ℕ
read_le16 [] = err io_eof
read_le16 (a ∷ []) = err io_unexpected_eof
read_le16 (a ∷ b ∷ rest) = ok (a + b * 256, rest)

unfoldable pub read_le32 : List ℕ → Read ℕ
read_le32 [] = err io_eof
read_le32 (a ∷ b ∷ c ∷ d ∷ rest) = ok (a + b * 256 + c * 65536 + d * 16777216, rest)
read_le32 _ = err io_unexpected_eof

-- The bytes of a number, the low one first.
abbrev pub le16 : ℕ → List ℕ → List ℕ
le16 v rest = u8 v ∷ u8 (v / 256) ∷ rest

abbrev pub le32 : ℕ → List ℕ → List ℕ
le32 v rest = u8 v ∷ u8 (v / 256) ∷ u8 (v / 65536) ∷ u8 (v / 16777216) ∷ rest

pub join_le16 : (v : ℕ) → v < 65536 → u8 v + u8 (v / 256) * 256 ≡ v
join_le16 v h = omega arith

pub join_le32 :
    (v : ℕ)
    → v < 4294967296
    → u8 v + u8 (v / 256) * 256 + u8 (v / 65536) * 65536 + u8 (v / 16777216) * 16777216 ≡ v
join_le32 v h = omega arith

pub read_le16-le16 : (v : ℕ) (rest : List ℕ) → v < 65536 → read_le16 (le16 v rest) ≡ ok (v, rest)
unfolding read_le16
read_le16-le16 v rest h = ap (λ n. ok (n, rest)) (join_le16 v h)

pub read_le32-le32 :
    (v : ℕ) (rest : List ℕ) → v < 4294967296 → read_le32 (le32 v rest) ≡ ok (v, rest)
unfolding read_le32
read_le32-le32 v rest h = ap (λ n. ok (n, rest)) (join_le32 v h)

pub read_full-append :
    (xs rest : List ℕ) (n : ℕ) → n ≡ length xs → read_full n (xs ++ rest) ≡ ok (xs, rest)
unfolding read_full
read_full-append [] rest zero h = refl
read_full-append [] rest (suc n) h = absurd (omega arith)
read_full-append (x ∷ xs) rest zero h = absurd (omega arith)
read_full-append (x ∷ xs) rest (suc n) h = rw (read_full-append xs rest n (omega arith))

after_byte-eq-ok :
    (b : ℕ) (r : Read (List ℕ)) (xs rest : List ℕ)
    → after_byte b r ≡ ok (xs, rest)
    → (ys : List ℕ) × (r ≡ ok (ys, rest)) × (xs ≡ b ∷ ys)
unfolding after_byte
after_byte-eq-ok b (ok (ys, more)) xs rest e = (ys, ground arith, ground arith)
after_byte-eq-ok b (err x) xs rest e = cc
after_byte-eq-ok b panic xs rest e = cc

pub read_full-eq-ok :
    (n : ℕ) (input xs rest : List ℕ)
    → read_full n input ≡ ok (xs, rest)
    → (input ≡ xs ++ rest) × (length xs ≡ n)
unfolding read_full
read_full-eq-ok zero input xs rest h = ground arith
read_full-eq-ok (suc n) [] xs rest h = cc
read_full-eq-ok (suc n) (b ∷ input) xs rest h =
    let (ys, e, q) = after_byte-eq-ok b (read_full n input) xs rest h in
    let (p, l) = read_full-eq-ok n input ys rest e in ground arith

-- `io.ReadFull` gives the bytes asked for, from the front of the input, or an error.
pub read_full_cases :
    (n : ℕ) (input : List ℕ)
    → ((xs : List ℕ) × (rest : List ℕ) × (read_full n input ≡ ok (xs, rest))
        × (length xs ≡ n)
        × (length input ≡ n + length rest))
      ⊎ ((e : Error) × (read_full n input ≡ err e))
unfolding read_full
read_full_cases zero input = inl ([], input, refl, refl, omega arith)
read_full_cases (suc n) [] = inr (io_eof, refl)
read_full_cases (suc n) (b ∷ input) = elim (read_full_cases n input) [
  | inl (xs, rest, e, count, whole) ↦ inl (b ∷ xs, rest, rw e, omega arith, omega arith)
  | inr (x, e) ↦ inr (cut_short x, rw e)
]
