-- ===== src/Monitor/Plan/Groups.antt =====
-- The groups of a plan: their keys, their points and the windows of each.
use Prim.Native.String.{String}
use text.Mathlib.Text.{◌==◌ as ◌≐◌}
use text.Mathlib.TextEquality.{eq_iff}
use mathlib.Core.Path.{subst}
use goindustrial.Base.{◌≡◌, inl, inr, refl, sym, ap, List, [], ◌∷◌, true, false, Bool-cases, All}
use goindustrial.Monitor.Plan.{
  Clusterable, ClusterConfig, end_of, limit, group_windows, group, remove, keys_of,
}
use goindustrial.Monitor.Plan.Any.{Any}
use goindustrial.Monitor.Plan.Merge.{
  Ends, Ascending, IsSound, gathered, merge_pass-IsSound, gathered-merge_pass, opened,
}

pub same_text : (s t : String) → (s ≐ t) ≡ true → s ≡ t
same_text s t h = (eq_iff s t).0 h

pub same_text_refl : (s t : String) → s ≡ t → (s ≐ t) ≡ true
same_text_refl s t h = (eq_iff s t).1 h

remove_other :
    (key : String) (q : String) (ks : List String)
    → (q ≐ key) ≡ false
    → Any (λ k. k ≡ q) ks
    → Any (λ k. k ≡ q) (remove key ks)
unfolding remove
remove_other key q [] d h = h
remove_other key q (k ∷ ks) d (inl e) =
    rw (remove, subst (λ t. (t ≐ key) ≡ false) (sym e) d) (inl e)
remove_other key q (k ∷ ks) d (inr h) = elim (Bool-cases (k ≐ key)) [
  | inl yes_ ↦ rw (remove, yes_) (remove_other key q ks d h)
  | inr no_ ↦ rw (remove, no_) (inr (remove_other key q ks d h))
]

module _ {D : Type 0} where
  abbrev pub Keyed : String → List (Clusterable D) → Type 0
  Keyed key ps = All (λ p. p.key ≡ key) ps

  pub group-Keyed : (key : String) (ps : List (Clusterable D)) → Keyed key (group key ps)
  unfolding group
  group-Keyed key [] = tt
  group-Keyed key (p ∷ ps) = elim (Bool-cases (p.key ≐ key)) [
    | inl yes_ ↦ rw (group, yes_) (same_text p.key key yes_, group-Keyed key ps)
    | inr no_ ↦ rw (group, no_) (group-Keyed key ps)
  ]

  -- What holds of all points holds of a group.
  pub All-group :
      (P : Clusterable D → Type 0) (key : String) (ps : List (Clusterable D))
      → All P ps
      → All P (group key ps)
  unfolding group
  All-group P key [] h = h
  All-group P key (p ∷ ps) (h, hs) = elim (Bool-cases (p.key ≐ key)) [
    | inl yes_ ↦ rw (group, yes_) (h, All-group P key ps hs)
    | inr no_ ↦ rw (group, no_) (All-group P key ps hs)
  ]

  -- A point is in the group of its key.
  pub Any-group :
      (q : Clusterable D) (ps : List (Clusterable D))
      → Any (λ p. p ≡ q) ps
      → Any (λ p. p ≡ q) (group q.key ps)
  unfolding group
  Any-group q [] h = h
  Any-group q (p ∷ ps) (inl e) = rw (group, same_text_refl p.key q.key (ap (λ t. t.key) e)) (inl e)
  Any-group q (p ∷ ps) (inr h) = elim (Bool-cases (p.key ≐ q.key)) [
    | inl yes_ ↦ rw (group, yes_) (inr (Any-group q ps h))
    | inr no_ ↦ rw (group, no_) (Any-group q ps h)
  ]

  -- The key of a point is among the keys.
  pub Any-keys_of :
      (q : Clusterable D) (ps : List (Clusterable D))
      → Any (λ p. p ≡ q) ps
      → Any (λ k. k ≡ q.key) (keys_of ps)
  unfolding keys_of
  Any-keys_of q [] h = h
  Any-keys_of q (p ∷ ps) (inl e) = inl (ap (λ t. t.key) e)
  Any-keys_of q (p ∷ ps) (inr h) = elim (Bool-cases (q.key ≐ p.key)) [
    | inl yes_ ↦ inl (sym (same_text q.key p.key yes_))
    | inr no_ ↦ inr (remove_other p.key q.key (keys_of ps) no_ (Any-keys_of q ps h))
  ]

  -- A group is a part of the points.
  pub Any-group_part :
      (P : Clusterable D → Type 0) (key : String) (ps : List (Clusterable D))
      → Any P (group key ps)
      → Any P ps
  unfolding group
  Any-group_part P key [] h = h
  Any-group_part P key (p ∷ ps) h = elim (Bool-cases (p.key ≐ key)) [
    | inl yes_ ↦ elim (subst (Any P) (kept yes_) h) [
      | inl here ↦ inl here
      | inr there ↦ inr (Any-group_part P key ps there)
    ]
    | inr no_ ↦ inr (Any-group_part P key ps (subst (Any P) (skipped no_) h))
  ]
    where
      kept : (p.key ≐ key) ≡ true → group key (p ∷ ps) ≡ p ∷ group key ps
      kept e = rw (group, e) refl

      skipped : (p.key ≐ key) ≡ false → group key (p ∷ ps) ≡ group key ps
      skipped e = rw (group, e) refl

  -- The windows of a sorted group read their points, within the limit of the group.
  pub group_windows-IsSound :
      (cfg : ClusterConfig) (key : String) (p : Clusterable D) (ps : List (Clusterable D))
      → Ascending (p ∷ ps)
      → All Ends (p ∷ ps)
      → All (IsSound key (limit cfg p)) (group_windows cfg key (p ∷ ps))
  unfolding group_windows
  group_windows-IsSound cfg key p ps (le, asc) (e, ends) =
      merge_pass-IsSound cfg (limit cfg p) key p.addr (end_of p) p [] ps
        (opened cfg (limit cfg p) key p e) le asc ends

  -- The windows of a group have its points, in the same order.
  pub gathered-group_windows :
      (cfg : ClusterConfig) (key : String) (ps : List (Clusterable D))
      → gathered (group_windows cfg key ps) ≡ ps
  unfolding group_windows
  gathered-group_windows cfg key [] = refl
  gathered-group_windows cfg key (p ∷ ps) =
      gathered-merge_pass cfg (limit cfg p) key p.addr (end_of p) p [] ps
