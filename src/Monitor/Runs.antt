-- ===== src/Monitor/Runs.antt =====
-- Plans of a few points, sorted by insertion.
use mathlib.Core.List.{Permᴰ}
use mathlib.Core.List.Permᴰ
use goindustrial.Base.{
  ℕ, ◌+◌, ◌≤◌, ◌<◌, ◌≡◌, inl, inr, refl, List, [], ◌∷◌, map, some, leb, if◌then◌else◌, Bool-cases,
  All, arith,
}
use goindustrial.Monitor.Plan.{
  Clusterable, ClusterConfig, flush, group_windows, build_windows, find_window,
}
use goindustrial.Monitor.Plan.Any.{All-perm}
use goindustrial.Monitor.Plan.Merge.{Ascending}
use goindustrial.Monitor.Plan.Lookup.{Found}
use goindustrial.Monitor.Plan.Whole.{Planned, build_windows-Planned, find_window-build_windows}
use goindustrial.Monitor.Plan.Wrap.{find_window-wrapped}

module _ {D : Type 0} where
  insert : Clusterable D → List (Clusterable D) → List (Clusterable D)
  insert p [] = p ∷ []
  insert p (q ∷ qs) = if leb p.addr q.addr then p ∷ q ∷ qs else q ∷ insert p qs

  sort : List (Clusterable D) → List (Clusterable D)
  sort [] = []
  sort (p ∷ ps) = insert p (sort ps)

  insert-perm : (p : Clusterable D) (qs : List (Clusterable D)) → Permᴰ (insert p qs) (p ∷ qs)
  unfolding insert
  insert-perm p [] = Permᴰ.refl (p ∷ [])
  insert-perm p (q ∷ qs) = elim (Bool-cases (leb p.addr q.addr)) [
    | inl yes_ ↦ rw (insert, yes_) (Permᴰ.refl (p ∷ q ∷ qs))
    | inr no_ ↦
        rw (insert, no_) (Permᴰ.trans (Permᴰ.cons refl (insert-perm p qs)) (Permᴰ.swap refl refl))
  ]

  sort-perm : (ps : List (Clusterable D)) → Permᴰ (sort ps) ps
  unfolding sort
  sort-perm [] = Permᴰ.refl []
  sort-perm (p ∷ ps) = Permᴰ.trans (insert-perm p (sort ps)) (Permᴰ.cons refl (sort-perm ps))

  bound_down :
      (p q : Clusterable D) (qs : List (Clusterable D))
      → p.addr ≤ q.addr
      → All (λ t. q.addr ≤ t.addr) qs
      → All (λ t. p.addr ≤ t.addr) qs
  bound_down p q [] le h = tt
  bound_down p q (r ∷ qs) le (h, hs) = (omega arith, bound_down p q qs le hs)

  insert-Ascending :
      (p : Clusterable D) (qs : List (Clusterable D)) → Ascending qs → Ascending (insert p qs)
  unfolding insert
  insert-Ascending p [] h = (tt, tt)
  insert-Ascending p (q ∷ qs) (le, asc) = elim (Bool-cases (leb p.addr q.addr)) [
    | inl yes_ ↦ rw (insert, yes_) ((ground arith, bound_down p q qs (ground arith) le), (le, asc))
    | inr no_ ↦
        rw (insert, no_)
          (All-perm _ (Permᴰ.symm (insert-perm p qs)) (ground arith, le), insert-Ascending p qs asc)
  ]

  sort-Ascending : (ps : List (Clusterable D)) → Ascending (sort ps)
  unfolding sort
  sort-Ascending [] = tt
  sort-Ascending (p ∷ ps) = insert-Ascending p (sort ps) (sort-Ascending ps)

abbrev config : ClusterConfig
config = record { gap_threshold = 4; max_registers_per_read = 10; max_coils_per_read = 100 }

-- A point of holding registers; its merged point is the range.
abbrev registers : ℕ → ℕ → Clusterable (ℕ × ℕ)
registers addr qty = record {
  key = "holding";
  addr = addr;
  qty = qty;
  bits_per_unit = 16;
  merge = λ start count. (start, count);
}

abbrev three_points : List (Clusterable (ℕ × ℕ))
three_points = registers 20 4 ∷ registers 5 2 ∷ registers 8 2 ∷ []

build_windows-Planned_example :
    All (Planned config three_points) (build_windows sort (λ ks. ks) three_points config)
build_windows-Planned_example =
    build_windows-Planned sort (λ ks. ks) sort-perm sort-Ascending config three_points
      (omega arith, (omega arith, (omega arith, tt)))

find_window-build_windows_example :
    Found (build_windows sort (λ ks. ks) three_points config) (registers 8 2)
find_window-build_windows_example =
    find_window-build_windows sort (λ ks. ks) sort-perm sort-Ascending (λ ks. Permᴰ.refl ks) config
      three_points (registers 8 2) (omega arith, (omega arith, (omega arith, tt)))
      (inr (inr (inl refl)))

find_window-wrapped_example :
    let w = flush "holding" 65530 65532 (registers 65530 2) (registers 65535 1 ∷ []) in
    (group_windows config "holding" (registers 65530 2 ∷ registers 65535 1 ∷ []) ≡ w ∷ [])
    × (find_window (w ∷ []) (registers 65535 1) ≡ some 0)
    × (w.start + w.count < 65536)
find_window-wrapped_example =
    find_window-wrapped config "holding" (registers 65530 2) (registers 65535 1) (omega arith)
      (omega arith) (omega arith) refl (omega arith) (omega arith) refl

three_windows :
    map {B = ℕ × ℕ} (λ w. (w.start, w.count)) (build_windows sort (λ ks. ks) three_points config)
    ≡ (5, 5) ∷ (20, 4) ∷ []
unfolding build_windows sort insert
three_windows = refl
