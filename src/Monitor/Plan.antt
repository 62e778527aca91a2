-- ===== src/Monitor/Plan.antt =====
-- monitor/cluster_plan.go: `buildWindows` merges the points of an area into read windows, and
-- `findWindow` looks the window of a point up. Addresses are 16-bit numbers, with the wrap-around of
-- the source. A point is what its `Clusterable` methods answer. `sort.Slice` and `sort.Strings` are
-- parameters. A map from keys to groups is given by its keys and the points of each.
pub mod Any
pub mod Merge
pub mod Groups
pub mod Lookup
pub mod Whole
pub mod Wrap
use Prim.Native.String.{String}
use text.Mathlib.Text.{◌==◌ as ◌≐◌}
use goindustrial.Base.{
  ℕ, zero, suc, ◌+◌, ◌-◌, List, [], ◌∷◌, ◌++◌, Bool, true, false, not, ◌&&◌, ltb, leb, ◌==◌,
  if◌then◌else◌, Option, none, some,
}
use goindustrial.Base.Bytes.{u16}

-- The answers of a point of the protocol's type; D is the type of data points.
pub record Clusterable (D : Type 0) : Type 0 where
  pub key : String
  pub addr : ℕ
  pub qty : ℕ
  pub bits_per_unit : ℕ
  pub merge : ℕ → ℕ → D

pub record ClusterConfig : Type 0 where
  pub gap_threshold : ℕ
  pub max_registers_per_read : ℕ
  pub max_coils_per_read : ℕ

pub record ReadWindow (D : Type 0) : Type 0 where
  pub key : String
  pub start : ℕ
  pub count : ℕ
  pub merged : D
  pub points : List (Clusterable D)

-- A difference of 16-bit numbers
abbrev pub u16_sub : ℕ → ℕ → ℕ
u16_sub a b = u16 (a + 65536 - b)

-- The keys other than this one
remove : String → List String → List String
remove key [] = []
remove key (k ∷ ks) = if k ≐ key then remove key ks else k ∷ remove key ks

found_later : Option ℕ → Option ℕ
found_later none = none
found_later (some i) = some (suc i)

module _ {D : Type 0} where
  -- `flush`, of the window from `start` to `stop` whose points are `first` and `others`
  abbrev pub flush : String → ℕ → ℕ → Clusterable D → List (Clusterable D) → ReadWindow D
  flush key start stop first others = record {
    key = key;
    start = start;
    count = u16_sub stop start;
    merged = first.merge start (u16_sub stop start);
    points = first ∷ others;
  }

  abbrev pub end_of : Clusterable D → ℕ
  end_of p = u16 (p.addr + p.qty)

  -- `canMerge`
  can_merge : ClusterConfig → ℕ → ℕ → ℕ → Clusterable D → Bool
  can_merge cfg max_per_read start stop p =
      let gap = if ltb stop p.addr then p.addr - stop else 0 in
      let merged_count =
        if ltb (end_of p) start then u16_sub stop start else u16_sub (end_of p) start in
      leb gap cfg.gap_threshold && leb merged_count max_per_read

  -- The merge pass over the points that are left.
  unfoldable pub merge_pass :
      ClusterConfig
      → ℕ
      → String
      → ℕ
      → ℕ
      → Clusterable D
      → List (Clusterable D)
      → List (Clusterable D)
      → List (ReadWindow D)
  unfolding can_merge
  merge_pass cfg max_per_read key start stop first others [] =
      flush key start stop first others ∷ []
  merge_pass cfg max_per_read key start stop first others (p ∷ ps) =
      elim (can_merge cfg max_per_read start stop p) [
        | true ↦
            merge_pass cfg max_per_read key start (if ltb stop (end_of p) then end_of p else stop)
              first (others ++ p ∷ []) ps
        | false ↦
            flush key start stop first others
            ∷ merge_pass cfg max_per_read key p.addr (end_of p) p [] ps
      ]

  -- `maxPerRead`, by the first point of the group
  abbrev pub limit : ClusterConfig → Clusterable D → ℕ
  limit cfg p = if p.bits_per_unit == 1 then cfg.max_coils_per_read else cfg.max_registers_per_read

  -- The windows of a sorted group
  unfoldable pub group_windows : ClusterConfig → String → List (Clusterable D) → List (ReadWindow D)
  unfolding merge_pass
  group_windows cfg key [] = []
  group_windows cfg key (p ∷ ps) = merge_pass cfg (limit cfg p) key p.addr (end_of p) p [] ps

  -- `groups[key]`
  unfoldable pub group : String → List (Clusterable D) → List (Clusterable D)
  group key [] = []
  group key (p ∷ ps) = if p.key ≐ key then p ∷ group key ps else group key ps

  -- The keys of `groups`
  unfoldable pub keys_of : List (Clusterable D) → List String
  unfolding remove
  keys_of [] = []
  keys_of (p ∷ ps) = p.key ∷ remove p.key (keys_of ps)

  module _ (sort_points : List (Clusterable D) → List (Clusterable D))
      (sort_keys : List String → List String) where
    -- The loop over the keys
    unfoldable pub windows_of :
        ClusterConfig → List (Clusterable D) → List String → List (ReadWindow D)
    unfolding group_windows group
    windows_of cfg points [] = []
    windows_of cfg points (key ∷ keys) =
        group_windows cfg key (sort_points (group key points)) ++ windows_of cfg points keys

    unfoldable pub build_windows : List (Clusterable D) → ClusterConfig → List (ReadWindow D)
    unfolding windows_of keys_of
    build_windows points cfg = windows_of cfg points (sort_keys (keys_of points))

  -- The test of `findWindow`'s loop
  fits_window : ReadWindow D → Clusterable D → Bool
  fits_window w p =
      (w.key ≐ p.key) && (leb w.start p.addr && leb (end_of p) (u16 (w.start + w.count)))

  -- The index, or `none` for -1
  unfoldable pub find_window : List (ReadWindow D) → Clusterable D → Option ℕ
  unfolding fits_window found_later
  find_window [] p = none
  find_window (w ∷ ws) p = if fits_window w p then some 0 else found_later (find_window ws p)
