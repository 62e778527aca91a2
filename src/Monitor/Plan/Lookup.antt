-- ===== src/Monitor/Plan/Lookup.antt =====
-- `findWindow` on the windows of `buildWindows`: a point that was planned is found, in a window that
-- reads all of it.
use Prim.Native.String.{String}
use mathlib.Core.Bool.{false≢true}
use goindustrial.Base.{
  ℕ, suc, ◌+◌, ◌<◌, ◌≡◌, inl, inr, refl, ◌∙◌, sym, List, [], ◌∷◌, true, false, Bool-cases, All,
  some, get_elem?, arith,
}
use goindustrial.Monitor.Plan.{Clusterable, ReadWindow, fits_window, find_window}
use goindustrial.Monitor.Plan.Any.{Any, Any-append_split, All-at}
use goindustrial.Monitor.Plan.Merge.{Ends, Covers, IsSound, gathered}
use goindustrial.Monitor.Plan.Groups.{same_text, same_text_refl}

module _ {D : Type 0} where
  abbrev pub InRange : ReadWindow D → Type 0
  InRange w = w.start + w.count < 65536

  abbrev pub Reads : Clusterable D → ReadWindow D → Type 0
  Reads p w = (w.key ≡ p.key) × Covers w p

  -- The window that `find_window` names.
  abbrev pub Found : List (ReadWindow D) → Clusterable D → Type 0
  Found ws p =
      (i : ℕ) × (w : ReadWindow D) × (find_window ws p ≡ some i)
      × (get_elem? ws i ≡ some w)
      × Reads p w

  fits-Reads :
      (w : ReadWindow D) (p : Clusterable D)
      → InRange w
      → Ends p
      → Reads p w
      → fits_window w p ≡ true
  unfolding fits_window
  fits-Reads w p range ends (same, (from, to)) = rw (same_text_refl w.key p.key same) (ground arith)

  Reads-fits :
      (w : ReadWindow D) (p : Clusterable D)
      → InRange w
      → Ends p
      → fits_window w p ≡ true
      → Reads p w
  unfolding fits_window
  Reads-fits w p range ends h = (same_text w.key p.key (ground arith), (ground arith, ground arith))

  elsewhere :
      (w : ReadWindow D) (ws : List (ReadWindow D)) (p : Clusterable D)
      → InRange w
      → Ends p
      → fits_window w p ≡ false
      → Any (Reads p) (w ∷ ws)
      → Any (Reads p) ws
  elsewhere w ws p range ends no_ (inl r) =
      absurd (false≢true (sym no_ ∙ fits-Reads w p range ends r))
  elsewhere w ws p range ends no_ (inr h) = h

  pub find_window-Found :
      (ws : List (ReadWindow D)) (p : Clusterable D)
      → All InRange ws
      → Ends p
      → Any (Reads p) ws
      → Found ws p
  unfolding find_window
  find_window-Found [] p range ends h = elim h [ ]
  find_window-Found (w ∷ ws) p (range, ranges) ends h = elim (Bool-cases (fits_window w p)) [
    | inl yes_ ↦ (0, w, rw (find_window, yes_) refl, refl, Reads-fits w p range ends yes_)
    | inr no_ ↦
        let (i, w', e, at_, r) =
          find_window-Found ws p ranges ends (elsewhere w ws p range ends no_ h) in
        (suc i, w', rw (find_window, no_, e) refl, at_, r)
  ]

  -- A point of a group is read by one of the windows of the group.
  pub gathered-Reads :
      (key : String) (limit_ : ℕ) (ws : List (ReadWindow D)) (q : Clusterable D)
      → q.key ≡ key
      → All (IsSound key limit_) ws
      → Any (λ p. p ≡ q) (gathered ws)
      → Any (Reads q) ws
  gathered-Reads key limit_ [] q same h a = a
  gathered-Reads key limit_ (w ∷ ws) q same (h, hs) a =
      elim (Any-append_split _ w.points (gathered ws) a) [
        | inl here ↦ inl (h.same_key ∙ sym same, All-at (Covers w) q w.points h.covers here)
        | inr there ↦ inr (gathered-Reads key limit_ ws q same hs there)
      ]
