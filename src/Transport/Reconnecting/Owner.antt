-- ===== src/Transport/Reconnecting/Owner.antt =====
-- The transport has at most one connection open, whatever its callers do and in whatever order they
-- get the lock.
use mathlib.Core.Bool.{false≢true}
use goindustrial.Base.{
  ◌≡◌, inl, inr, refl, sym, ap, ◌∙◌, List, [], ◌∷◌, Bool, Bool-cases, true, false, not, ◌||◌,
  if◌then◌else◌, arith,
}
use goindustrial.Base.{Go, ok, err, panic}
use goindustrial.Transport.{Comparable, Dialer, Config}
use goindustrial.Transport.Tracking.{Tracks, fire_on_connect_keeps, fire_on_disconnect_keeps}
use goindustrial.Transport.Reconnecting.{
  ReconnectingTransport, has_no_conn, new_reconnecting_transport, fast_path, after_connect,
  slow_path, get_conn, shut_conn, reset, close,
}

-- What a caller does under the lock, where that can change the transport.
pub data Action (C : Type 0) : Type 0 where
  slow_path_action : Action C
  reset_action : C → Action C
  close_action : Action C

module _ {W C : Type 0} (comparable : Comparable C) (dialer : Dialer W C) (cfg : Config W) where
  abbrev pub step : Action C → ReconnectingTransport W C → ReconnectingTransport W C
  step slow_path_action r = (slow_path comparable dialer cfg r).0
  step (reset_action stale) r = reset comparable dialer cfg stale r
  step close_action r = (close comparable dialer cfg r).0

  abbrev pub run : List (Action C) → ReconnectingTransport W C → ReconnectingTransport W C
  run [] r = r
  run (action ∷ actions) r = run actions (step action r)

  -- The open connections are the one of the transport, or none; a closed transport has none.
  pub record Owns (open_conns : W → List C) (r : ReconnectingTransport W C) : Type 0 where
    pub its_own :
        open_conns r.world ≡ (if has_no_conn comparable dialer cfg r then [] else r.conn ∷ [])
    pub none_closed : r.closed ≡ true → has_no_conn comparable dialer cfg r ≡ true

module _ {W C : Type 0} {comparable : Comparable C} {dialer : Dialer W C} {cfg : Config W}
    {open_conns : W → List C} (tracks : Tracks comparable dialer cfg open_conns) where
  abbrev Own : ReconnectingTransport W C → Type 0
  Own r = Owns comparable dialer cfg open_conns r

  abbrev vacant : ReconnectingTransport W C → Bool
  vacant r = has_no_conn comparable dialer cfg r

  zero_vacant : comparable.same comparable.zero_value comparable.zero_value ≡ true
  zero_vacant = (comparable.same_iff comparable.zero_value comparable.zero_value).1 refl

  shut_conn-Owns :
      (b : Bool) (r : ReconnectingTransport W C)
      → Own r
      → vacant r ≡ false
      → Own (shut_conn comparable dialer cfg b r).0
  unfolding shut_conn
  shut_conn-Owns b r h busy = record {
    its_own = rw zero_vacant (
        fire_on_disconnect_keeps tracks _ _
        ∙ tracks.shut_removes r.world r.conn [] (h.its_own ∙ rw busy refl));
    none_closed = λ _. zero_vacant;
  }

  after_connect-Owns :
      (r : ReconnectingTransport W C) (w : W) (result : Go C)
      → Own r
      → r.closed ≡ false
      → vacant r ≡ true
      → dialer.connect r.world ≡ (w, result)
      → Own (after_connect comparable dialer cfg r (w, result)).0
  unfolding after_connect
  after_connect-Owns r w (ok c) h opened none_ e =
      let (added, real) = tracks.connect_adds r.world w c e in
      record {
        its_own = rw real (
            fire_on_connect_keeps tracks w ∙ added ∙ ap (λ cs. c ∷ cs) (h.its_own ∙ rw none_ refl));
        none_closed = λ shut_. absurd (false≢true (sym opened ∙ shut_));
      }
  after_connect-Owns r w (err x) h opened none_ e = record {
    its_own = tracks.connect_fails r.world w x e ∙ h.its_own;
    none_closed = h.none_closed;
  }
  after_connect-Owns r w panic h opened none_ e = record {
    its_own = tracks.connect_panics r.world w e ∙ h.its_own;
    none_closed = h.none_closed;
  }

  slow_path-Owns :
      (r : ReconnectingTransport W C) → Own r → Own (slow_path comparable dialer cfg r).0
  unfolding slow_path
  slow_path-Owns r h = elim (Bool-cases r.closed) [
    | inl shut_ ↦ simp (slow_path, shut_) h
    | inr opened ↦ elim (Bool-cases (vacant r)) [
      | inl none_ ↦ simp (slow_path, opened, none_) (after_connect-Owns r _ _ h opened none_ refl)
      | inr busy ↦ simp (slow_path, opened, busy) h
    ]
  ]

  pub reset-Owns :
      (stale : C) (r : ReconnectingTransport W C)
      → Own r
      → Own (reset comparable dialer cfg stale r)
  unfolding reset
  reset-Owns stale r h = elim (Bool-cases (vacant r || not (comparable.same r.conn stale))) [
    | inl other ↦ simp (reset, other) h
    | inr this ↦ simp (reset, this) (shut_conn-Owns r.closed r h (ground arith))
  ]

  pub close-Owns : (r : ReconnectingTransport W C) → Own r → Own (close comparable dialer cfg r).0
  unfolding close
  close-Owns r h = elim (Bool-cases r.closed) [
    | inl shut_ ↦ simp (close, shut_) h
    | inr opened ↦ elim (Bool-cases (vacant r)) [
      | inl none_ ↦
          simp (close, opened, none_) (record { its_own = h.its_own; none_closed = λ _. none_ })
      | inr busy ↦ simp (close, opened, busy) (shut_conn-Owns true r h busy)
    ]
  ]

  pub step-Owns :
      (action : Action C) (r : ReconnectingTransport W C)
      → Own r
      → Own (step comparable dialer cfg action r)
  step-Owns slow_path_action r h = slow_path-Owns r h
  step-Owns (reset_action stale) r h = reset-Owns stale r h
  step-Owns close_action r h = close-Owns r h

  run_keeps :
      (actions : List (Action C)) (r : ReconnectingTransport W C)
      → Own r
      → Own (run comparable dialer cfg actions r)
  run_keeps [] r h = h
  run_keeps (action ∷ actions) r h = run_keeps actions _ (step-Owns action r h)

  -- Over a network without open connections whose connector and closer are tracked: whatever
  -- sequence of slow paths of `Conn`, resets and closes gets the lock of a new reconnecting
  -- transport, the open connections are the transport's one or none, and a closed transport has
  -- none.
  pub run-Owns :
      (w : W) (actions : List (Action C))
      → open_conns w ≡ []
      → Owns comparable dialer cfg open_conns
          (run comparable dialer cfg actions (new_reconnecting_transport comparable dialer cfg w))
  unfolding new_reconnecting_transport
  run-Owns w actions none_ =
      run_keeps actions _
        (record { its_own = none_ ∙ rw zero_vacant refl; none_closed = λ _. zero_vacant })

  pub get_conn-Owns :
      (r : ReconnectingTransport W C) → Own r → Own (get_conn comparable dialer cfg r).0
  unfolding get_conn fast_path
  get_conn-Owns r h = elim (Bool-cases r.closed) [
    | inl shut_ ↦ simp (get_conn, fast_path, shut_) h
    | inr opened ↦ elim (Bool-cases (vacant r)) [
      | inl none_ ↦
          simp (get_conn, fast_path, opened, none_) (after_connect-Owns r _ _ h opened none_ refl)
      | inr busy ↦ simp (get_conn, fast_path, opened, busy) h
    ]
  ]
