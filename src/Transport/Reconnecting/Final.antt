-- ===== src/Transport/Reconnecting/Final.antt =====
-- What `Close` and a stale `Reset` leave.
use goindustrial.Base.{
  ◌≡◌, inl, inr, refl, sym, ap, ◌∙◌, List, [], ◌∷◌, Bool, Bool-cases, true, false, not, ◌||◌, none,
  arith,
}
use goindustrial.Base.{Go, ok, err, panic, transport_closed}
use goindustrial.Transport.{Comparable, Dialer, Config}
use goindustrial.Transport.Tracking.{Tracks}
use goindustrial.Transport.Reconnecting.{
  ReconnectingTransport, has_no_conn, fast_path, after_connect, slow_path, after_fast_path,
  get_conn, peek, shut_conn, reset, close,
}
use goindustrial.Transport.Reconnecting.Owner.{
  Action, slow_path_action, reset_action, close_action, step, run, Owns, close-Owns,
}

module _ {W C : Type 0} (comparable : Comparable C) (dialer : Dialer W C) (cfg : Config W) where
  abbrev vacant : ReconnectingTransport W C → Bool
  vacant r = has_no_conn comparable dialer cfg r

  slow_path_closed :
      (r : ReconnectingTransport W C)
      → r.closed ≡ true
      → slow_path comparable dialer cfg r ≡ (r, err transport_closed)
  unfolding slow_path
  slow_path_closed r c = simp (slow_path, c) refl

  reset_vacant :
      (stale : C) (r : ReconnectingTransport W C)
      → vacant r ≡ true
      → reset comparable dialer cfg stale r ≡ r
  unfolding reset
  reset_vacant stale r v = simp (reset, v) refl

  close_closed :
      (r : ReconnectingTransport W C) → r.closed ≡ true → close comparable dialer cfg r ≡ (r, none)
  unfolding close
  close_closed r c = simp (close, c) refl

  step_closed :
      (action : Action C) (r : ReconnectingTransport W C)
      → r.closed ≡ true
      → vacant r ≡ true
      → step comparable dialer cfg action r ≡ r
  step_closed slow_path_action r c v = ap (λ t. t.0) (slow_path_closed r c)
  step_closed (reset_action stale) r c v = reset_vacant stale r v
  step_closed close_action r c v = ap (λ t. t.0) (close_closed r c)

  run_closed :
      (actions : List (Action C)) (r : ReconnectingTransport W C)
      → r.closed ≡ true
      → vacant r ≡ true
      → run comparable dialer cfg actions r ≡ r
  run_closed [] r c v = refl
  run_closed (action ∷ actions) r c v =
      ap (run comparable dialer cfg actions) (step_closed action r c v) ∙ run_closed actions r c v

  close-closed : (r : ReconnectingTransport W C) → (close comparable dialer cfg r).0.closed ≡ true
  unfolding close shut_conn
  close-closed r = elim (Bool-cases r.closed) [
    | inl c ↦ simp (close, c) refl
    | inr o ↦ elim (Bool-cases (vacant r)) [
      | inl v ↦ simp (close, o, v) refl
      | inr b ↦ simp (close, o, b) refl
    ]
  ]

  pub get_conn_closed :
      (r : ReconnectingTransport W C)
      → r.closed ≡ true
      → get_conn comparable dialer cfg r ≡ (r, err transport_closed)
  unfolding get_conn fast_path after_fast_path
  get_conn_closed r c = simp (get_conn, fast_path, c) refl

  peek_closed :
      (r : ReconnectingTransport W C) → r.closed ≡ true → peek comparable dialer cfg r ≡ false
  unfolding peek
  peek_closed r c = simp (peek, c) refl

  -- After `Close` of a reconnecting transport that owns its connections, and any further slow
  -- paths, resets and closes, no connection is open, `Conn` fails because the transport is closed,
  -- and `Peek` reports no connection.
  pub close_for_good :
      {open_conns : W → List C} (r : ReconnectingTransport W C) (actions : List (Action C))
      → Tracks comparable dialer cfg open_conns
      → Owns comparable dialer cfg open_conns r
      → let r' = run comparable dialer cfg actions (close comparable dialer cfg r).0 in
        (open_conns r'.world ≡ [])
        × (get_conn comparable dialer cfg r' ≡ (r', err transport_closed))
        × (peek comparable dialer cfg r' ≡ false)
  close_for_good {open_conns = open_conns} r actions tracks h =
      let r0 = (close comparable dialer cfg r).0 in
      let own = close-Owns tracks r h in
      let c = close-closed r in
      let v = own.none_closed c in
      let same = run_closed actions r0 c v in
      let c' : (run comparable dialer cfg actions r0).closed ≡ true = ap (λ t. t.closed) same ∙ c in
      (
        ap (λ t. open_conns t.world) same ∙ own.its_own ∙ rw v refl,
        get_conn_closed _ c',
        peek_closed _ c',
      )

  abbrev not_mine : C → ReconnectingTransport W C → Bool
  not_mine stale r = vacant r || not (comparable.same r.conn stale)

  reset_not_mine :
      (stale : C) (r : ReconnectingTransport W C)
      → not_mine stale r ≡ true
      → reset comparable dialer cfg stale r ≡ r
  unfolding reset
  reset_not_mine stale r e = simp (reset, e) refl

  reset_twice :
      (stale : C) (r : ReconnectingTransport W C)
      → not_mine stale (reset comparable dialer cfg stale r) ≡ true
  unfolding reset shut_conn
  reset_twice stale r =
      let zero_vacant : comparable.same comparable.zero_value comparable.zero_value ≡ true =
        (comparable.same_iff comparable.zero_value comparable.zero_value).1 refl in
      elim (Bool-cases (not_mine stale r)) [
        | inl e ↦ simp (reset, e) refl
        | inr e ↦ simp (reset, e) (simp zero_vacant refl)
      ]

  after_connect-eq-ok :
      (r r' : ReconnectingTransport W C) (w : W) (result : Go C) (fresh : C)
      → r.closed ≡ false
      → after_connect comparable dialer cfg r (w, result) ≡ (r', ok fresh)
      → (r'.closed ≡ false) × (r'.conn ≡ fresh)
  unfolding after_connect
  after_connect-eq-ok r r' w (ok c) fresh opened e =
      let same : c ≡ fresh = ground arith in
      (sym (ap (λ t. t.0.closed) e) ∙ opened, sym (ap (λ t. t.0.conn) e) ∙ same)
  after_connect-eq-ok r r' w (err x) fresh opened e = cc
  after_connect-eq-ok r r' w panic fresh opened e = cc

  pub get_conn_connected :
      (r : ReconnectingTransport W C)
      → r.closed ≡ false
      → vacant r ≡ false
      → get_conn comparable dialer cfg r ≡ (r, ok r.conn)
  unfolding get_conn fast_path after_fast_path
  get_conn_connected r o b = simp (get_conn, fast_path, o, b) refl

  pub get_conn_waiting :
      (r : ReconnectingTransport W C)
      → r.closed ≡ false
      → vacant r ≡ true
      → get_conn comparable dialer cfg r
        ≡ after_connect comparable dialer cfg r (dialer.connect r.world)
  unfolding get_conn fast_path after_fast_path slow_path
  get_conn_waiting r o v = simp (get_conn, fast_path, slow_path, o, v) refl

  get_conn-eq-ok :
      (r r' : ReconnectingTransport W C) (fresh : C)
      → get_conn comparable dialer cfg r ≡ (r', ok fresh)
      → (r'.closed ≡ false) × (r'.conn ≡ fresh)
  get_conn-eq-ok r r' fresh e = elim (Bool-cases r.closed) [
    | inl c ↦
        let refused : err transport_closed ≡ ok fresh =
          ap (λ t. t.1) (sym (get_conn_closed r c) ∙ e) in
        cc
    | inr o ↦ elim (Bool-cases (vacant r)) [
      | inl v ↦ after_connect-eq-ok r r' _ _ fresh o (sym (get_conn_waiting r o v) ∙ e)
      | inr b ↦
          let there = sym (get_conn_connected r o b) ∙ e in
          let same : ok r.conn ≡ ok fresh = ap (λ t. t.1) there in
          let same' : r.conn ≡ fresh = ground arith in
          (sym (ap (λ t. t.0.closed) there) ∙ o, sym (ap (λ t. t.0.conn) there) ∙ same')
    ]
  ]

  -- When two callers reset the same failed connection, the second reset changes nothing, neither at
  -- once nor after `Conn` has made another connection that is not the zero value, which `Conn` then
  -- still returns.
  pub reset_stale :
      (r r' : ReconnectingTransport W C) (stale fresh : C)
      → get_conn comparable dialer cfg (reset comparable dialer cfg stale r) ≡ (r', ok fresh)
      → comparable.same fresh stale ≡ false
      → comparable.same fresh comparable.zero_value ≡ false
      → (reset comparable dialer cfg stale (reset comparable dialer cfg stale r)
          ≡ reset comparable dialer cfg stale r)
        × (reset comparable dialer cfg stale r' ≡ r')
        × (get_conn comparable dialer cfg r' ≡ (r', ok fresh))
  reset_stale r r' stale fresh e d real =
      let (o, c) = get_conn-eq-ok (reset comparable dialer cfg stale r) r' fresh e in
      (
        reset_not_mine stale _ (reset_twice stale r),
        reset_not_mine stale r' (rw (c, d) (ground arith)),
        get_conn_connected r' o (rw c real) ∙ ap (λ t. (r', ok t)) c,
      )
