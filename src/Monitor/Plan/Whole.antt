-- ===== src/Monitor/Plan/Whole.antt =====
-- The whole plan of `buildWindows`: each of its windows, and the window of each point.
use Prim.Native.String.{String}
use mathlib.Core.Path.{subst}
use mathlib.Core.List.{Permᴰ}
use mathlib.Core.List.Permᴰ
use goindustrial.Base.{ℕ, ◌≡◌, inl, inr, refl, sym, ◌∙◌, List, [], ◌∷◌, All}
use goindustrial.Monitor.Plan.{
  Clusterable, ClusterConfig, ReadWindow, limit, group_windows, group, keys_of, windows_of,
  build_windows,
}
use goindustrial.Monitor.Plan.Any.{
  Any, Any-append_left, Any-append_right, Any-perm, All-perm, All-append, All-at, All-map,
}
use goindustrial.Monitor.Plan.Merge.{Ends, Ascending, IsSound}
use goindustrial.Monitor.Plan.Groups.{
  Keyed, group-Keyed, All-group, Any-group, Any-group_part, Any-keys_of, group_windows-IsSound,
  gathered-group_windows,
}
use goindustrial.Monitor.Plan.Lookup.{Reads, InRange, Found, find_window-Found, gathered-Reads}

module _ {D : Type 0} where
  -- A window for some of these points, with the limit of one of them.
  abbrev pub Planned : ClusterConfig → List (Clusterable D) → ReadWindow D → Type 0
  Planned cfg points w =
      (p : Clusterable D) × Any (λ q. q ≡ p) points
      × (p.key ≡ w.key)
      × IsSound w.key (limit cfg p) w

  own_key : (key : String) (n : ℕ) (w : ReadWindow D) → IsSound key n w → IsSound w.key n w
  own_key key n w h = subst (λ k. IsSound k n w) (sym h.same_key) h

  group_windows-Planned :
      (cfg : ClusterConfig) (key : String) (points ps : List (Clusterable D))
      → Ascending ps
      → All Ends ps
      → Keyed key ps
      → ((q : Clusterable D) → Any (λ p. p ≡ q) ps → Any (λ p. p ≡ q) points)
      → All (Planned cfg points) (group_windows cfg key ps)
  unfolding group_windows
  group_windows-Planned cfg key points [] asc ends keyed part = tt
  group_windows-Planned cfg key points (p ∷ ps) asc ends keyed part =
      All-map (IsSound key (limit cfg p)) (Planned cfg points)
        (λ w h. (p, part p (inl refl), keyed.0 ∙ sym h.same_key, own_key key (limit cfg p) w h)) _
        (group_windows-IsSound cfg key p ps asc ends)

module _ {D : Type 0} (sort_points : List (Clusterable D) → List (Clusterable D))
    (sort_keys : List String → List String)
    (perm : (ps : List (Clusterable D)) → Permᴰ (sort_points ps) ps)
    (asc : (ps : List (Clusterable D)) → Ascending (sort_points ps)) where
  sorted-Ends :
      (key : String) (points : List (Clusterable D))
      → All Ends points
      → All Ends (sort_points (group key points))
  sorted-Ends key points ends =
      All-perm Ends (Permᴰ.symm (perm (group key points))) (All-group Ends key points ends)

  windows_of-Planned :
      (cfg : ClusterConfig) (points : List (Clusterable D)) (keys : List String)
      → All Ends points
      → All (Planned cfg points) (windows_of sort_points sort_keys cfg points keys)
  unfolding windows_of
  windows_of-Planned cfg points [] ends = tt
  windows_of-Planned cfg points (key ∷ keys) ends =
      All-append (Planned cfg points) (group_windows cfg key (sort_points (group key points))) _
        (group_windows-Planned cfg key points _ (asc (group key points))
          (sorted-Ends key points ends)
          (All-perm _ (Permᴰ.symm (perm (group key points))) (group-Keyed key points))
          (λ q h. Any-group_part _ key points (Any-perm _ (perm (group key points)) h)))
        (windows_of-Planned cfg points keys ends)

  -- With sorts that permute, the one of points by address: when every point ends before address
  -- 65536, each window of the plan ends there too, reads all units of its points, has the key of a
  -- planned point, and has at most as many units as the limit for a planned point of its key, or as
  -- its first point.
  pub build_windows-Planned :
      (cfg : ClusterConfig) (points : List (Clusterable D))
      → All Ends points
      → All (Planned cfg points) (build_windows sort_points sort_keys points cfg)
  unfolding build_windows
  build_windows-Planned cfg points ends = windows_of-Planned cfg points _ ends

  sorted_windows-Reads :
      (cfg : ClusterConfig) (q : Clusterable D) (ps : List (Clusterable D))
      → Ascending ps
      → All Ends ps
      → Any (λ p. p ≡ q) ps
      → Any (Reads q) (group_windows cfg q.key ps)
  sorted_windows-Reads cfg q [] above ends h = elim h [ ]
  sorted_windows-Reads cfg q (p ∷ ps) above ends h =
      gathered-Reads q.key (limit cfg p) (group_windows cfg q.key (p ∷ ps)) q refl
        (group_windows-IsSound cfg q.key p ps above ends)
        (subst (Any (λ t. t ≡ q)) (sym (gathered-group_windows cfg q.key (p ∷ ps))) h)

  windows_of-Reads :
      (cfg : ClusterConfig) (points : List (Clusterable D)) (keys : List String) (q : Clusterable D)
      → All Ends points
      → Any (λ p. p ≡ q) points
      → Any (λ k. k ≡ q.key) keys
      → Any (Reads q) (windows_of sort_points sort_keys cfg points keys)
  unfolding windows_of
  windows_of-Reads cfg points [] q ends is_point is_key = is_key
  windows_of-Reads cfg points (key ∷ keys) q ends is_point (inl e) =
      Any-append_left (Reads q) (group_windows cfg key (sort_points (group key points))) _ (
        subst (λ k. Any (Reads q) (group_windows cfg k (sort_points (group k points)))) (sym e)
          (sorted_windows-Reads cfg q _ (asc (group q.key points)) (sorted-Ends q.key points ends)
            (Any-perm _ (Permᴰ.symm (perm (group q.key points))) (Any-group q points is_point))))
  windows_of-Reads cfg points (key ∷ keys) q ends is_point (inr h) =
      Any-append_right (Reads q) (group_windows cfg key (sort_points (group key points))) _
        (windows_of-Reads cfg points keys q ends is_point h)

  -- With sorts that permute, the one of points by address: when every point ends before address
  -- 65536, a point that was planned is found by `find_window` in a window of the plan, which has
  -- the point's key and reads all of its units.
  pub find_window-build_windows :
      ((ks : List String) → Permᴰ (sort_keys ks) ks)
      → (cfg : ClusterConfig) (points : List (Clusterable D)) (q : Clusterable D) → All Ends points
      → Any (λ p. p ≡ q) points
      → Found (build_windows sort_points sort_keys points cfg) q
  unfolding build_windows
  find_window-build_windows perm_keys cfg points q ends is_point =
      find_window-Found (build_windows sort_points sort_keys points cfg) q
        (All-map (Planned cfg points) InRange (λ w h. h.3.in_range) _
          (build_windows-Planned cfg points ends))
        (All-at Ends q points ends is_point)
        (windows_of-Reads cfg points _ q ends is_point
          (Any-perm _ (Permᴰ.symm (perm_keys (keys_of points))) (Any-keys_of q points is_point)))
