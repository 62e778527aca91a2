-- ===== src/Modbus/Store/Ranges.antt =====
-- Reading and writing a range of wrapping addresses.
use goindustrial.Base.{
  ℕ, zero, suc, ◌+◌, ◌-◌, ◌%◌, ◌<◌, ◌≤◌, ◌≡◌, ◌≢◌, refl, ◌∙◌, ap, List, [], ◌∷◌, ltb, if◌then◌else◌,
  length, get_elem?, Bool-cases, inl, inr, arith,
}
use mathlib.Core.Path.{ap₂}
use goindustrial.Base.Bytes.{u16}
use goindustrial.Modbus.Store.{AddressMap, insert, read_range, write_range}

-- How far an address lies behind the start, going round at 65536.
abbrev pub offset : ℕ → ℕ → ℕ
offset address j = (j + 65536 - address) % 65536

module _ {ℓ} {A : Type ℓ} where
  pub length-read_range :
      (z : A) (m : AddressMap A) (address i n : ℕ) → length (read_range z m address i n) ≡ n
  unfolding read_range
  length-read_range z m address i zero = refl
  length-read_range z m address i (suc n) = ap suc (length-read_range z m address (i + 1) n)

  -- Addresses that no round of the loop meets keep their entry.
  write_range-keeps :
      (m : AddressMap A) (address i j : ℕ) (values : List A)
      → ((k : ℕ) → i ≤ k → k < i + length values → u16 (address + k) ≢ j)
      → write_range m address i values j ≡ m j
  unfolding write_range
  write_range-keeps m address i j [] away = refl
  write_range-keeps m address i j (v ∷ values) away =
      write_range-keeps (insert m (u16 (address + i)) v) address (i + 1) j values
        (λ k lo hi. away k (omega arith) (omega arith))
      ∙ ground (arith, away i)

  -- Round k of the loop wrote what is found at its address: the addresses are all different.
  write_range-hits :
      (m : AddressMap A) (address i k : ℕ) (values : List A)
      → i + length values ≤ 65536
      → k < length values
      → write_range m address i values (u16 (address + (i + k))) ≡ get_elem? values k
  unfolding write_range
  write_range-hits m address i k [] fits inside = elim inside [ ]
  write_range-hits m address i zero (v ∷ values) fits inside =
      write_range-keeps (insert m (u16 (address + i)) v) address (i + 1) (u16 (address + (i + 0)))
        values (λ k lo hi. omega arith)
      ∙ ground arith
  write_range-hits m address i (suc k) (v ∷ values) fits inside =
      ap (write_range (insert m (u16 (address + i)) v) address (i + 1) values)
        {x = u16 (address + (i + suc k))} {y = u16 (address + (i + 1 + k))} (omega arith)
      ∙ write_range-hits (insert m (u16 (address + i)) v) address (i + 1) k values (omega arith)
          (omega arith)

  -- After a write of at most 65536 values, every address in the range, counted past 65535 to 0, has
  -- the value written to it, and every other 16-bit address keeps its entry.
  pub write_range_lem :
      (m : AddressMap A) (address j : ℕ) (values : List A)
      → address < 65536
      → j < 65536
      → length values ≤ 65536
      → write_range m address 0 values j ≡ (
          if ltb (offset address j) (length values)
          then get_elem? values (offset address j)
          else m j)
  write_range_lem m address j values ha hj fits =
      elim (Bool-cases (ltb (offset address j) (length values))) [
        | inl inside ↦
            let place : j ≡ u16 (address + (0 + offset address j)) = omega arith in
            rw inside (
              ap (write_range m address 0 values) place
              ∙ write_range-hits m address 0 (offset address j) values (omega arith) (ground arith))
        | inr outside ↦
            rw outside (write_range-keeps m address 0 j values λ k lo hi e. ground arith)
      ]

  read_range-hits :
      (z : A) (m : AddressMap A) (address i : ℕ) (values : List A)
      → ((k : ℕ) → k < length values → m (u16 (address + (i + k))) ≡ get_elem? values k)
      → read_range z m address i (length values) ≡ values
  unfolding read_range
  read_range-hits z m address i [] hits = refl
  read_range-hits z m address i (v ∷ values) hits =
      ap₂ (λ (a : A) (t : List A). a ∷ t)
        (rw (
          ap m {x = u16 (address + i)} {y = u16 (address + (i + 0))} (omega arith)
          ∙ hits 0 (omega arith)))
        (read_range-hits z m address (i + 1) values λ k h.
          ap m {x = u16 (address + (i + 1 + k))} {y = u16 (address + (i + suc k))} (omega arith)
          ∙ hits (suc k) (omega arith))

  -- Reading a range to which at most 65536 values were written gives these values.
  pub read_range-write_range :
      (z : A) (m : AddressMap A) (address : ℕ) (values : List A)
      → length values ≤ 65536
      → read_range z (write_range m address 0 values) address 0 (length values) ≡ values
  read_range-write_range z m address values fits =
      read_range-hits z (write_range m address 0 values) address 0 values
        λ k h. write_range-hits m address 0 k values (omega arith) h
