-- ===== src/Transport/Direct/Once.antt =====
-- The direct transport: its connection is open while it is active, and it never connects again.
use mathlib.Core.Bool.{false≢true}
use mathlib.Core.Path.{subst}
use goindustrial.Base.{
  ◌≡◌, ◌⊎◌, inl, inr, refl, sym, ap, ◌∙◌, List, [], ◌∷◌, Bool, Bool-cases, true, false, not, ◌||◌,
  arith,
}
use goindustrial.Base.{Go, ok, err, panic, transport_closed, transport_was_reset}
use goindustrial.Transport.{Comparable, Dialer, Config, fire_on_connect}
use goindustrial.Transport.Tracking.{Tracks, fire_on_connect_keeps, fire_on_disconnect_keeps}
use goindustrial.Transport.Direct.{
  DirectTransport, after_connect, new_direct_transport, get_conn, peek, shut_conn, reset, close,
}

-- What a caller does under the lock, where that can change the transport.
pub data Action (C : Type 0) : Type 0 where
  reset_action : C → Action C
  close_action : Action C

module _ {W C : Type 0} (comparable : Comparable C) (dialer : Dialer W C) (cfg : Config W) where
  abbrev pub step : Action C → DirectTransport W C → DirectTransport W C
  step (reset_action stale) d = reset comparable dialer cfg stale d
  step close_action d = (close comparable dialer cfg d).0

  abbrev pub run : List (Action C) → DirectTransport W C → DirectTransport W C
  run [] d = d
  run (action ∷ actions) d = run actions (step action d)

  -- Its first connection, `first`, is open and what it answers with; or nothing is open, and it
  -- answers with an error and reports no connection.
  abbrev pub Serves : (W → List C) → C → DirectTransport W C → Type 0
  Serves open_conns first d =
      ((open_conns d.world ≡ first ∷ [])
        × (get_conn comparable dialer cfg d ≡ ok first)
        × (peek comparable dialer cfg d ≡ true))
      ⊎ ((open_conns d.world ≡ [])
          × (peek comparable dialer cfg d ≡ false)
          × ((get_conn comparable dialer cfg d ≡ err transport_closed)
              ⊎ (get_conn comparable dialer cfg d ≡ err transport_was_reset)))

  record Valid (open_conns : W → List C) (first : C) (d : DirectTransport W C) : Type 0 where
    active_open :
        d.active ≡ true → (open_conns d.world ≡ first ∷ []) × (d.conn ≡ first) × (d.closed ≡ false)
    inactive_none : d.active ≡ false → open_conns d.world ≡ []

module _ {W C : Type 0} {comparable : Comparable C} {dialer : Dialer W C} {cfg : Config W}
    {open_conns : W → List C} (tracks : Tracks comparable dialer cfg open_conns) (first : C) where
  abbrev Ok : DirectTransport W C → Type 0
  Ok d = Valid comparable dialer cfg open_conns first d

  shut_conn-Valid :
      (b : Bool) (d : DirectTransport W C)
      → Ok d
      → d.active ≡ true
      → Ok (shut_conn comparable dialer cfg b d).0
  unfolding shut_conn
  shut_conn-Valid b d h busy =
      let (there, mine, _) = h.active_open busy in
      record {
        active_open = λ e. absurd (false≢true e);
        inactive_none = λ _.
            fire_on_disconnect_keeps tracks _ _
            ∙ tracks.shut_removes d.world d.conn [] (there ∙ ap (λ c. c ∷ []) (sym mine));
      }

  reset-Valid :
      (stale : C) (d : DirectTransport W C) → Ok d → Ok (reset comparable dialer cfg stale d)
  unfolding reset
  reset-Valid stale d h = elim (Bool-cases (not d.active || not (comparable.same d.conn stale))) [
    | inl other ↦ simp (reset, other) h
    | inr this ↦ simp (reset, this) (shut_conn-Valid d.closed d h (ground arith))
  ]

  close-Valid : (d : DirectTransport W C) → Ok d → Ok (close comparable dialer cfg d).0
  unfolding close
  close-Valid d h = elim (Bool-cases d.closed) [
    | inl c ↦ simp (close, c) h
    | inr o ↦ elim (Bool-cases d.active) [
      | inl on ↦ simp (close, o, on) (shut_conn-Valid true d h on)
      | inr off ↦
          simp (close, o, off)
            (record {
              active_open = λ e. absurd (false≢true e);
              inactive_none = λ _. h.inactive_none off;
            })
    ]
  ]

  run-Valid :
      (actions : List (Action C)) (d : DirectTransport W C)
      → Ok d
      → Ok (run comparable dialer cfg actions d)
  run-Valid [] d h = h
  run-Valid (reset_action stale ∷ actions) d h = run-Valid actions _ (reset-Valid stale d h)
  run-Valid (close_action ∷ actions) d h = run-Valid actions _ (close-Valid d h)

  Valid-Serves : (d : DirectTransport W C) → Ok d → Serves comparable dialer cfg open_conns first d
  unfolding get_conn peek
  Valid-Serves d h = elim (Bool-cases d.active) [
    | inl on ↦
        let (there, mine, o) = h.active_open on in
        inl (there, simp (get_conn, on, o) (ap ok mine), simp (peek, on, o) refl)
    | inr off ↦ inr (
      h.inactive_none off,
      simp (peek, off) refl,
      elim (Bool-cases d.closed) [
        | inl c ↦ inl (simp (get_conn, c) refl)
        | inr o ↦ inr (simp (get_conn, o, off) refl)
      ],
    )
  ]

module _ {W C : Type 0} {comparable : Comparable C} {dialer : Dialer W C} {cfg : Config W}
    {open_conns : W → List C} (tracks : Tracks comparable dialer cfg open_conns) where
  after_connect-Valid :
      (w w' v : W) (result : Go C) (d : DirectTransport W C)
      → open_conns w ≡ []
      → dialer.connect w ≡ (w', result)
      → after_connect comparable dialer cfg (w', result) ≡ (v, ok d)
      → Valid comparable dialer cfg open_conns d.conn d
  unfolding after_connect
  after_connect-Valid w w' v (ok c) d none_ connected e =
      let made : record { conn = c; active = true; closed = false; world = fire_on_connect cfg w' }
          ≡ d =
        ground arith in
      let (added, real) = tracks.connect_adds w w' c connected in
      subst (λ t. Valid comparable dialer cfg open_conns t.conn t) made
        (record {
          active_open =
              λ _. (fire_on_connect_keeps tracks w' ∙ added ∙ ap (λ cs. c ∷ cs) none_, refl, refl);
          inactive_none = λ off. absurd (false≢true (sym off));
        })
  after_connect-Valid w w' v (err x) d none_ connected e = cc
  after_connect-Valid w w' v panic d none_ connected e = cc

  -- A direct transport that was made on a network without open connections, after any resets and
  -- closes, either has its first connection open, returns it and reports it, or has none open,
  -- fails with one of its two errors, and reports none.
  pub run-Serves :
      (w v : W) (d : DirectTransport W C) (actions : List (Action C))
      → open_conns w ≡ []
      → new_direct_transport comparable dialer cfg w ≡ (v, ok d)
      → Serves comparable dialer cfg open_conns d.conn (run comparable dialer cfg actions d)
  unfolding new_direct_transport
  run-Serves w v d actions none_ made =
      Valid-Serves tracks d.conn _
        (run-Valid tracks d.conn actions d (after_connect-Valid w _ v _ d none_ refl made))
