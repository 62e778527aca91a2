-- ===== src/Modbus/TcpConn/Matching.antt =====
-- conn.go: whatever arrives, the read loop hands out responses by their transaction IDs only.
use mathlib.Core.Path.{subst}
use goindustrial.Base.{
  ℕ, ◌≡◌, ◌≢◌, ◌⊎◌, inl, inr, refl, sym, ◌∙◌, ap, List, [], ◌∷◌, ◌++◌, All, Bool-cases, Option,
  none, some, ◌==◌, ==_iff, ==_self, arith,
}
use goindustrial.Base.{Error}
use goindustrial.Modbus.Frame.{Response}
use goindustrial.Modbus.Transactions.{Transaction, offer, complete, TransactionPool, release}
use goindustrial.Modbus.Transactions.Place.{Option-cases}
use goindustrial.Modbus.TcpConn.{Reader, settle}

abbrev pub id_of : Transaction → ℕ
id_of t = t.request.mbap.transaction_id

-- The transactions in flight carry the IDs under which they are found, and have no response yet.
abbrev pub IsAwaiting : TransactionPool → Type 0
IsAwaiting pool =
    (id : ℕ) (t : Transaction)
    → pool.transactions id ≡ some t
    → (id_of t ≡ id) × (t.response_ch ≡ none)

-- A completed transaction has a response to its own ID, or none and an error.
abbrev pub IsMatched : Transaction → Type 0
IsMatched t =
    ((response : Response) × (t.response_ch ≡ some response)
      × (response.mbap.transaction_id ≡ id_of t))
    ⊎ ((t.response_ch ≡ none) × ((e : Error) × (t.err_ch ≡ some e)))

abbrev pub Differs : Transaction → Transaction → Type 0
Differs t u = id_of u ≢ id_of t

abbrev pub Distinct : List Transaction → Type 0
Distinct [] = Unit {0}
Distinct (t ∷ ts) = All (Differs t) ts × Distinct ts

All-append :
    (P : Transaction → Type 0) (ts : List Transaction) (t : Transaction)
    → All P ts
    → P t
    → All P (ts ++ t ∷ [])
All-append P [] t h k = (k, tt)
All-append P (u ∷ ts) t (h, hs) k = (h, All-append P ts t hs k)

Distinct-append :
    (ts : List Transaction) (t : Transaction)
    → Distinct ts
    → All (λ u. id_of t ≢ id_of u) ts
    → Distinct (ts ++ t ∷ [])
Distinct-append [] t h k = (tt, tt)
Distinct-append (u ∷ ts) t (h, hs) (k, ks) =
    (All-append (Differs u) ts t h k, Distinct-append ts t hs ks)

All-map :
    (P Q : Transaction → Type 0)
    → ((t : Transaction) → P t → Q t)
    → (ts : List Transaction) → All P ts
    → All Q ts
All-map P Q f [] h = tt
All-map P Q f (t ∷ ts) (h, hs) = (f t h, All-map P Q f ts hs)

-- A result that may be handed to the transaction with an ID: an error, or a response to it.
abbrev pub IsFor : ℕ → Response ⊎ Error → Type 0
IsFor id (inl response) = response.mbap.transaction_id ≡ id
IsFor id (inr e) = Unit {0}

offered : (o : Option Error) (e : Error) → (x : Error) × (offer o e ≡ some x)
unfolding offer
offered none e = (e, refl)
offered (some x) e = (x, refl)

complete-IsMatched :
    (t : Transaction) (id : ℕ) (result : Response ⊎ Error)
    → id_of t ≡ id
    → t.response_ch ≡ none
    → IsFor id result
    → IsMatched (complete t result)
unfolding complete
complete-IsMatched t id (inl response) e free for_it = inl (response, rw free, for_it ∙ sym e)
complete-IsMatched t id (inr x) e free for_it = inr (free, offered t.err_ch x)

complete-request :
    (t : Transaction) (result : Response ⊎ Error) → (complete t result).request ≡ t.request
unfolding complete
complete-request t (inl response) = refl
complete-request t (inr e) = refl

none-ne-some : (t : Transaction) → ◌≢◌ {A = Option Transaction} none (some t)
none-ne-some t p = cc

-- One of the transactions has an ID.
abbrev pub HasId : ℕ → List Transaction → Type 0
HasId id [] = ⊥
HasId id (t ∷ ts) = (id_of t ≡ id) ⊎ HasId id ts

HasId-append :
    (id : ℕ) (ts : List Transaction) (t : Transaction) → HasId id ts → HasId id (ts ++ t ∷ [])
HasId-append id [] t h = absurd h
HasId-append id (u ∷ ts) t (inl e) = inl e
HasId-append id (u ∷ ts) t (inr h) = inr (HasId-append id ts t h)

HasId-append_last :
    (id : ℕ) (ts : List Transaction) (t : Transaction) → id_of t ≡ id → HasId id (ts ++ t ∷ [])
HasId-append_last id [] t e = inl e
HasId-append_last id (u ∷ ts) t e = inr (HasId-append_last id ts t e)

module _ (start : TransactionPool) where
  -- Where a completed transaction comes from, and that it is gone from the pool.
  abbrev pub CameFrom : TransactionPool → Transaction → Type 0
  CameFrom pool t =
      ((t' : Transaction) × (start.transactions (id_of t) ≡ some t') × (t'.request ≡ t.request))
      × (pool.transactions (id_of t) ≡ none)

  -- What the loop keeps, from a pool at the start: only transactions of that pool are in flight, and
  -- the completed ones were in it, are no longer in flight, are matched, and differ.
  pub record IsSound (r : Reader) : Type 0 where
    -- A transaction of the pool at the start is still there, or was completed.
    pub shrinks :
        (id : ℕ)
        → (r.pool.transactions id ≡ start.transactions id)
          ⊎ ((r.pool.transactions id ≡ none) × HasId id r.completed)
    pub matched : All IsMatched r.completed
    pub origin : All (CameFrom r.pool) r.completed
    pub once : Distinct r.completed
    pub same_done : r.pool.done ≡ start.done

  gone :
      (pool : TransactionPool) (id : ℕ) (t : Transaction)
      → CameFrom pool t
      → CameFrom (release pool id).0 t
  unfolding release
  gone pool id t (from, out) = (from, ground arith)

  differ_from :
      (pool : TransactionPool) (t : Transaction)
      → pool.transactions (id_of t) ≢ none
      → (u : Transaction) → CameFrom pool u
      → id_of t ≢ id_of u
  differ_from pool t here u (_, out) = λ p. here (ap pool.transactions p ∙ out)

  still_start :
      (r : Reader) (id : ℕ) (t : Transaction)
      → IsSound r
      → r.pool.transactions id ≡ some t
      → start.transactions id ≡ some t
  still_start r id t sound e = elim (sound.shrinks id) [
    | inl same ↦ sym same ∙ e
    | inr (out, has) ↦ cc
  ]

  release_shrinks :
      (r : Reader) (id : ℕ) (ts : List Transaction)
      → IsSound r
      → ((r.pool.transactions id ≡ none) ⊎ HasId id ts)
      → ((j : ℕ) → HasId j r.completed → HasId j ts)
      → (j : ℕ)
      → ((release r.pool id).0.transactions j ≡ start.transactions j)
        ⊎ (((release r.pool id).0.transactions j ≡ none) × HasId j ts)
  unfolding release
  release_shrinks r id ts sound here more j = elim (Bool-cases (j == id)) [
    | inl e ↦
        let same : j ≡ id = (==_iff j id).0 e in
        rw e (elim here [
          | inl empty ↦ elim (sound.shrinks j) [
            | inl old ↦ inl (sym (ap r.pool.transactions same ∙ empty) ∙ old)
            | inr (out, has) ↦ inr (refl, more j has)
          ]
          | inr has ↦ inr (refl, subst (λ i. HasId i ts) (sym same) has)
        ])
    | inr e ↦
        rw e (elim (sound.shrinks j) [ inl old ↦ inl old | inr (out, has) ↦ inr (out, more j has) ])
  ]

  released_none : (pool : TransactionPool) (id : ℕ) → (release pool id).0.transactions id ≡ none
  unfolding release
  released_none pool id = rw (==_self id)

  pub settle-IsSound :
      (awaiting : IsAwaiting start) (r : Reader) (id : ℕ) (result : Response ⊎ Error)
      → IsSound r
      → IsFor id result
      → IsSound (settle r (release r.pool id) result)
  settle-IsSound awaiting r id result sound for_it = elim (Option-cases (r.pool.transactions id)) [
    | inl e ↦
        unfold settle release in
        rw e (record {
          shrinks = release_shrinks r id r.completed sound (inl e) (λ j h. h);
          matched = sound.matched;
          origin = All-map (CameFrom r.pool) _ (gone r.pool id) r.completed sound.origin;
          once = sound.once;
          same_done = sound.same_done;
        })
    | inr (t, e) ↦
        let began = still_start r id t sound e in
        let (same, free) = awaiting id t began in
        let here : id_of (complete t result) ≡ id =
          ap (λ q. q.mbap.transaction_id) (complete-request t result) ∙ same in
        unfold settle release in
        rw e (record {
          shrinks =
              release_shrinks r id (r.completed ++ complete t result ∷ []) sound
                (inr (HasId-append_last id r.completed (complete t result) here))
                (λ j h. HasId-append j r.completed (complete t result) h);
          matched =
              All-append IsMatched r.completed _ sound.matched
                (complete-IsMatched t id result same free for_it);
          origin =
              All-append _ r.completed _
                (All-map (CameFrom r.pool) _ (gone r.pool id) r.completed sound.origin)
                (
                  (t, ap start.transactions here ∙ began, sym (complete-request t result)),
                  ap (release r.pool id).0.transactions here ∙ released_none r.pool id,
                );
          once = Distinct-append r.completed _ sound.once (
              All-map (CameFrom r.pool) _
                (differ_from r.pool (complete t result)
                  (λ p. none-ne-some t (sym p ∙ ap r.pool.transactions here ∙ e)))
                r.completed sound.origin);
          same_done = sound.same_done;
        })
  ]
