-- ===== src/Monitor/Plan/Wrap.antt =====
-- A point that ends with the address space, at 65536.
use Prim.Native.String.{String}
use goindustrial.Base.{
  ◌+◌, ◌≤◌, ◌<◌, ◌≡◌, refl, sym, true, false, ◌&&◌, leb, [], ◌∷◌, some, ltb, arith,
}
use goindustrial.Base.Bytes.{u16}
use goindustrial.Monitor.Plan.{
  Clusterable, ClusterConfig, u16_sub, flush, end_of, can_merge, merge_pass, limit, group_windows,
  fits_window, find_window,
}
use goindustrial.Monitor.Plan.Groups.{same_text_refl}

module _ {D : Type 0} (cfg : ClusterConfig) (key : String) (p q : Clusterable D)
    (after : 0 < p.addr) (sorted : p.addr ≤ q.addr) (first_end : p.addr + p.qty < 65536)
    (last_end : q.addr + q.qty ≡ 65536) (near : q.addr ≤ p.addr + p.qty + cfg.gap_threshold)
    (small : p.qty ≤ limit cfg p) where
  wrapped_merges : can_merge cfg (limit cfg p) p.addr (end_of p) q ≡ true
  unfolding can_merge
  wrapped_merges = ground arith

  wrapped_not_longer : ltb (end_of p) (end_of q) ≡ false
  wrapped_not_longer = ground arith

  group_windows_wrapped :
      group_windows cfg key (p ∷ q ∷ []) ≡ flush key p.addr (end_of p) p (q ∷ []) ∷ []
  unfolding group_windows merge_pass
  group_windows_wrapped = rw (group_windows, merge_pass, wrapped_merges, wrapped_not_longer) refl

  find_window_wrapped :
      q.key ≡ key → find_window (flush key p.addr (end_of p) p (q ∷ []) ∷ []) q ≡ some 0
  unfolding find_window fits_window
  find_window_wrapped same =
      let inside : (leb p.addr q.addr && leb (end_of q) (u16 (p.addr + u16_sub (end_of p) p.addr)))
          ≡ true =
        ground arith in
      rw (find_window, fits_window, same_text_refl key q.key (sym same), inside) refl

  -- In a group of two sorted points, the first not at address 0, ending before 65536 and within the
  -- limit, a second point near it that ends exactly at 65536 is merged into a window that ends with
  -- the first point, `find_window` gives that window for it, and the window does not reach its end.
  pub find_window-wrapped :
      q.key ≡ key
      → let w = flush key p.addr (end_of p) p (q ∷ []) in
        (group_windows cfg key (p ∷ q ∷ []) ≡ w ∷ [])
        × (find_window (w ∷ []) q ≡ some 0)
        × (w.start + w.count < q.addr + q.qty)
  find_window-wrapped same = (group_windows_wrapped, find_window_wrapped same, omega arith)
