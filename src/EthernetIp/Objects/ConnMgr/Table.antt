-- ===== src/EthernetIp/Objects/ConnMgr/Table.antt =====
-- The table of connections: what the searches and the changes of it do, and its invariant.
use mathlib.Core.Bool.{false≢true}
use goindustrial.Base.{
  ℕ, ◌<◌, ◌≤◌, ◌==◌, ◌≡◌, ◌≢◌, refl, sym, ◌∙◌, inl, inr, Bool-cases, List, [], ◌∷◌, ◌++◌, All, true,
  false, some, arith,
}
use goindustrial.EthernetIp.Objects.ConnMgr.{
  Connection, ConnectionManager, has_triad, triad_in_use, put, keep, take_triad,
}

abbrev pub Entry : Type 0
Entry = ℕ × Connection

-- Two entries with different IDs and different triads
abbrev pub Differ : Entry → Entry → Type 0
Differ e f =
    (e.0 ≢ f.0)
    × (has_triad f.1.connection_serial_number f.1.vendor_id f.1.originator_serial_number e.1
        ≡ false)

abbrev pub Apart : List Entry → Type 0
Apart [] = Unit
Apart (e ∷ es) = All (Differ e) es × Apart es

-- An entry under its own ID, which was given out before
abbrev pub Issued : ℕ → Entry → Type 0
Issued next e = (2147483648 < e.0) × (e.0 ≤ next) × (e.1.to_connection_id ≡ e.0)

pub record IsTable {W : Type 0} (cm : ConnectionManager W) : Type 0 where
  pub apart : Apart cm.connections
  pub issued : All (Issued cm.next_conn_id) cm.connections

abbrev pub Unlike : ℕ → ℕ → ℕ → Entry → Type 0
Unlike serial vendor originator e = has_triad serial vendor originator e.1 ≡ false

pub triad_not_in_use :
    (serial vendor originator : ℕ) (entries : List Entry)
    → triad_in_use serial vendor originator entries ≡ false
    → All (Unlike serial vendor originator) entries
unfolding triad_in_use
triad_not_in_use serial vendor originator [] h = tt
triad_not_in_use serial vendor originator ((id, c) ∷ entries) h =
    elim (Bool-cases (has_triad serial vendor originator c)) [
      | inl e ↦ absurd (false≢true (sym h ∙ rw (triad_in_use, e) refl))
      | inr e ↦ (
        e,
        triad_not_in_use serial vendor originator entries (sym (rw (triad_in_use, e) refl) ∙ h),
      )
    ]

pub put_fresh :
    (id : ℕ) (c : Connection) (entries : List Entry)
    → All (λ e. e.0 ≢ id) entries
    → put id c entries ≡ entries ++ (id, c) ∷ []
unfolding put
put_fresh id c [] h = refl
put_fresh id c ((i, d) ∷ entries) (h, hs) =
    let other : (i == id) ≡ false = ground arith in rw (put, other, put_fresh id c entries hs) refl

pub All-join :
    (P : Entry → Type 0) (xs : List Entry) (e : Entry) → All P xs → P e → All P (xs ++ e ∷ [])
All-join P [] e h k = (k, tt)
All-join P (x ∷ xs) e (h, hs) k = (h, All-join P xs e hs k)

pub Apart-join :
    (xs : List Entry) (e : Entry) → Apart xs → All (λ x. Differ x e) xs → Apart (xs ++ e ∷ [])
Apart-join [] e h k = (tt, tt)
Apart-join (x ∷ xs) e (h, hs) (k, ks) = (All-join (Differ x) xs e h k, Apart-join xs e hs ks)

-- What is left by a search was there.
pub All-take_triad :
    (P : Entry → Type 0) (serial vendor originator : ℕ) (entries : List Entry)
    → All P entries
    → All P (take_triad serial vendor originator entries).1
unfolding take_triad keep
All-take_triad P serial vendor originator [] h = tt
All-take_triad P serial vendor originator ((id, c) ∷ entries) (h, hs) =
    elim (Bool-cases (has_triad serial vendor originator c)) [
      | inl e ↦ rw (take_triad, e) hs
      | inr e ↦ rw (take_triad, e) (h, All-take_triad P serial vendor originator entries hs)
    ]

pub Apart-take_triad :
    (serial vendor originator : ℕ) (entries : List Entry)
    → Apart entries
    → Apart (take_triad serial vendor originator entries).1
unfolding take_triad keep
Apart-take_triad serial vendor originator [] h = tt
Apart-take_triad serial vendor originator ((id, c) ∷ entries) (h, hs) =
    elim (Bool-cases (has_triad serial vendor originator c)) [
      | inl e ↦ rw (take_triad, e) hs
      | inr e ↦
          rw (take_triad, e)
            (
              All-take_triad (Differ (id, c)) serial vendor originator entries h,
              Apart-take_triad serial vendor originator entries hs,
            )
    ]

-- A search for the only entry with a triad, at the end.
pub take_triad_last :
    (serial vendor originator : ℕ) (entries : List Entry) (e : Entry)
    → All (Unlike serial vendor originator) entries
    → has_triad serial vendor originator e.1 ≡ true
    → take_triad serial vendor originator (entries ++ e ∷ []) ≡ (some e.1, entries)
unfolding take_triad keep
take_triad_last serial vendor originator [] e h k = rw (take_triad, k) refl
take_triad_last serial vendor originator ((id, c) ∷ entries) e (h, hs) k =
    rw (take_triad, h, take_triad_last serial vendor originator entries e hs k) refl
