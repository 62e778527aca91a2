-- ===== src/Monitor/Plan/Merge.antt =====
-- The windows of one group: they cover their points, respect the limit, and keep every point.
use goindustrial.Base.{
  ℕ, ◌+◌, ◌-◌, ◌≤◌, ◌<◌, ◌≡◌, ◌⊎◌, inl, inr, refl, ◌∙◌, sym, ap, List, [], ◌∷◌, ◌++◌, true, ltb,
  Bool-cases, if◌then◌else◌, All, append_assoc, arith,
}
use Prim.Native.String.{String}
use mathlib.Core.Path.{subst}
use goindustrial.Monitor.Plan.{
  Clusterable, ClusterConfig, ReadWindow, u16_sub, flush, end_of, can_merge, merge_pass,
}
use goindustrial.Monitor.Plan.Any.{All-append}

module _ {D : Type 0} where
  -- The point ends at an address, so that its end does not wrap.
  abbrev pub Ends : Clusterable D → Type 0
  Ends p = p.addr + p.qty < 65536

  abbrev pub Within : ℕ → ℕ → Clusterable D → Type 0
  Within start stop p = (start ≤ p.addr) × (p.addr + p.qty ≤ stop)

  abbrev pub Covers : ReadWindow D → Clusterable D → Type 0
  Covers w p = Within w.start (w.start + w.count) p

  abbrev pub Ascending : List (Clusterable D) → Type 0
  Ascending [] = Unit
  Ascending (p ∷ ps) = All (λ q. p.addr ≤ q.addr) ps × Ascending ps

  -- A window of the area that reads all of its points, and no more units than the limit unless its
  -- first point alone has more.
  pub record IsSound (key : String) (max_per_read : ℕ) (w : ReadWindow D) : Type 0 where
    pub same_key : w.key ≡ key
    pub in_range : w.start + w.count < 65536
    pub covers : All (Covers w) w.points
    pub bounded :
        (w.count ≤ max_per_read)
        ⊎ ((p : Clusterable D) × (others : List (Clusterable D)) × (w.points ≡ p ∷ others)
            × (w.count ≡ p.qty))

  -- The points of the windows, in order.
  abbrev pub gathered : List (ReadWindow D) → List (Clusterable D)
  gathered [] = []
  gathered (w ∷ ws) = w.points ++ gathered ws

  Within-mono :
      (start : ℕ) {stop stop' : ℕ} (ps : List (Clusterable D))
      → stop ≤ stop'
      → All (Within start stop) ps
      → All (Within start stop') ps
  Within-mono start [] le h = h
  Within-mono start (p ∷ ps) le ((a, b), hs) = ((a, omega arith), Within-mono start ps le hs)

module _ {D : Type 0} (cfg : ClusterConfig) (max_per_read : ℕ) (key : String) where
  -- The window that is being built.
  pub record IsOpen (start stop : ℕ) (first : Clusterable D) (others : List (Clusterable D))
      : Type 0 where
    pub before : start ≤ stop
    pub below : stop < 65536
    pub inside : All (Within start stop) (first ∷ others)
    pub small : (stop ≤ start + max_per_read) ⊎ (stop ≡ start + first.qty)

  flush-IsSound :
      (start stop : ℕ) (first : Clusterable D) (others : List (Clusterable D))
      → IsOpen start stop first others
      → IsSound key max_per_read (flush key start stop first others)
  flush-IsSound start stop first others h =
      let count : u16_sub stop start ≡ stop - start = omega (arith, h.before, h.below) in
      let reach : start + u16_sub stop start ≡ stop = omega (arith, h.before, h.below) in
      record {
        same_key = refl;
        in_range = omega (arith, h.below);
        covers = subst (λ t. All (Within start t) (first ∷ others)) (sym reach) h.inside;
        bounded = elim h.small [
          | inl le ↦ inl (omega arith)
          | inr e ↦ inr (first, others, refl, omega (arith, h.before))
        ];
      }

  extended :
      (start stop : ℕ) (first : Clusterable D) (others : List (Clusterable D)) (p : Clusterable D)
      → IsOpen start stop first others
      → start ≤ p.addr
      → Ends p
      → can_merge cfg max_per_read start stop p ≡ true
      → IsOpen start (if ltb stop (end_of p) then end_of p else stop) first (others ++ p ∷ [])
  unfolding can_merge
  extended start stop first others p h from ends merges =
      let e : end_of p ≡ p.addr + p.qty = omega arith in
      let rest : All (Within start (if ltb stop (end_of p) then end_of p else stop))
          (others ++ p ∷ []) =
        All-append _ others (p ∷ []) (Within-mono start others (ground arith) h.inside.1)
          ((from, ground arith), tt) in
      record {
        before = ground arith;
        below = ground arith;
        inside = ((h.inside.0.0, ground arith), rest);
        small = elim h.small [
          | inl l ↦ inl (ground arith)
          | inr l ↦ elim (Bool-cases (ltb stop (end_of p))) [
            | inl longer ↦ inl (ground arith)
            | inr shorter ↦ inr (ground arith)
          ]
        ];
      }

  pub opened : (p : Clusterable D) → Ends p → IsOpen p.addr (end_of p) p []
  opened p ends =
      let e : end_of p ≡ p.addr + p.qty = omega arith in
      rw e (record {
        before = omega arith;
        below = ends;
        inside = ((omega arith, omega arith), tt);
        small = inr refl;
      })

  pub merge_pass-IsSound :
      (start stop : ℕ) (first : Clusterable D) (others ps : List (Clusterable D))
      → IsOpen start stop first others
      → All (λ q. start ≤ q.addr) ps
      → Ascending ps
      → All Ends ps
      → All (IsSound key max_per_read) (merge_pass cfg max_per_read key start stop first others ps)
  unfolding merge_pass
  merge_pass-IsSound start stop first others [] h from asc ends =
      (flush-IsSound start stop first others h, tt)
  merge_pass-IsSound start stop first others (p ∷ ps) h (le, from) (above, asc) (e, ends) =
      elim (Bool-cases (can_merge cfg max_per_read start stop p)) [
        | inl yes_ ↦
            rw (merge_pass, yes_)
              (merge_pass-IsSound start _ first (others ++ p ∷ []) ps
                (extended start stop first others p h le e yes_) from asc ends)
        | inr no_ ↦
            rw (merge_pass, no_)
              (
                flush-IsSound start stop first others h,
                merge_pass-IsSound p.addr (end_of p) p [] ps (opened p e) above asc ends,
              )
      ]

  -- No point is lost, doubled or moved.
  pub gathered-merge_pass :
      (start stop : ℕ) (first : Clusterable D) (others ps : List (Clusterable D))
      → gathered (merge_pass cfg max_per_read key start stop first others ps)
        ≡ first ∷ (others ++ ps)
  unfolding merge_pass
  gathered-merge_pass start stop first others [] = refl
  gathered-merge_pass start stop first others (p ∷ ps) =
      elim (Bool-cases (can_merge cfg max_per_read start stop p)) [
        | inl yes_ ↦
            rw (merge_pass, yes_)
              (gathered-merge_pass start _ first (others ++ p ∷ []) ps
                ∙ ap (λ t. first ∷ t) (append_assoc others (p ∷ []) ps))
        | inr no_ ↦
            rw (merge_pass, no_)
              (ap (λ t. first ∷ (others ++ t)) (gathered-merge_pass p.addr (end_of p) p [] ps))
      ]
