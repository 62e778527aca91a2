-- ===== src/EthernetIp/Objects/ConnMgr/Invariant.antt =====
-- The invariant of the table: requests of any kind keep the entries apart.
use mathlib.Core.Path.{subst}
use goindustrial.Base.{
  ℕ, ◌+◌, ◌%◌, ◌<◌, ◌≤◌, ◌==◌, ◌≡◌, ◌≢◌, refl, sym, ap, ◌∙◌, inl, inr, Bool-cases, List, [], ◌∷◌,
  ◌++◌, All, true, false, length, arith,
}
use goindustrial.Base.{Go, ok, err, panic}
use goindustrial.EthernetIp.Objects.ConnMgr.Requests.{ForwardOpenRequest, ForwardCloseRequest}
use goindustrial.EthernetIp.Objects.ConnMgr.{
  Connection, ConnectionManager, Callbacks, triad_in_use, put, new_connection,
  new_connection_manager, open_connection, open_decoded, handle_forward_open, close_connection,
  close_decoded, handle_forward_close, handle_request,
}
use goindustrial.EthernetIp.Objects.ConnMgr.Table.{
  Entry, Differ, Apart, Issued, IsTable, Unlike, triad_not_in_use, put_fresh, All-join, Apart-join,
  All-take_triad, Apart-take_triad,
}

later :
    (next : ℕ) (entries : List Entry) → All (Issued next) entries → All (Issued (next + 1)) entries
later next [] h = tt
later next (e ∷ entries) ((a, b, c), hs) = ((a, omega arith, c), later next entries hs)

pub fresh_id :
    (next : ℕ) (entries : List Entry)
    → All (Issued next) entries
    → All (λ e. e.0 ≢ next + 1) entries
fresh_id next [] h = tt
fresh_id next (e ∷ entries) ((a, b, c), hs) =
    (λ same. absurd (omega arith), fresh_id next entries hs)

Differ-All :
    (id : ℕ) (c : Connection) (entries : List Entry)
    → All (λ e. e.0 ≢ id) entries
    → All (Unlike c.connection_serial_number c.vendor_id c.originator_serial_number) entries
    → All (λ e. Differ e (id, c)) entries
Differ-All id c [] h k = tt
Differ-All id c (e ∷ entries) (h, hs) (k, ks) = ((h, k), Differ-All id c entries hs ks)

module _ {W : Type 0} (callbacks : Callbacks W) where
  -- A manager that can still give out IDs, and whose next one is in range.
  abbrev pub InRange : ℕ → ConnectionManager W → Type 0
  InRange left cm = (2147483648 ≤ cm.next_conn_id) × (cm.next_conn_id + left < 4294967296)

  pub opened_id :
      (cm : ConnectionManager W)
      → InRange 1 cm
      → (cm.next_conn_id + 1) % 4294967296 ≡ cm.next_conn_id + 1
  opened_id cm (lo, hi) = omega arith

  -- What `open_connection` does for a triad that is not in use.
  pub open_connection_fresh :
      (req : ForwardOpenRequest) (cm : ConnectionManager W)
      → IsTable cm
      → InRange 1 cm
      → triad_in_use req.connection_serial_number req.vendor_id req.originator_serial_number
          cm.connections
        ≡ false
      → (open_connection callbacks req cm).0.connections
        ≡ cm.connections ++ (cm.next_conn_id + 1, new_connection req (cm.next_conn_id + 1)) ∷ []
  unfolding open_connection
  open_connection_fresh req cm h range unused =
      simp (open_connection, unused)
        (ap (λ id. put id (new_connection req id) cm.connections) (opened_id cm range)
          ∙ put_fresh _ _ cm.connections (fresh_id cm.next_conn_id cm.connections h.issued))

  opened_next :
      (req : ForwardOpenRequest) (cm : ConnectionManager W)
      → InRange 1 cm
      → triad_in_use req.connection_serial_number req.vendor_id req.originator_serial_number
          cm.connections
        ≡ false
      → (open_connection callbacks req cm).0.next_conn_id ≡ cm.next_conn_id + 1
  unfolding open_connection
  opened_next req cm range unused = simp (open_connection, unused) (opened_id cm range)

  refused :
      (req : ForwardOpenRequest) (cm : ConnectionManager W)
      → triad_in_use req.connection_serial_number req.vendor_id req.originator_serial_number
          cm.connections
        ≡ true
      → (open_connection callbacks req cm).0 ≡ cm
  unfolding open_connection
  refused req cm used = simp (open_connection, used) refl

  -- A table whose next ID is in range for so many more openings.
  abbrev Good : ℕ → ConnectionManager W → Type 0
  Good left cm = IsTable cm × InRange left cm

  open_connection-Good :
      (left : ℕ) (req : ForwardOpenRequest) (cm : ConnectionManager W)
      → Good (left + 1) cm
      → Good left (open_connection callbacks req cm).0
  unfolding new_connection
  open_connection-Good left req cm (h, (lo, hi)) =
      elim (Bool-cases (
        triad_in_use req.connection_serial_number req.vendor_id req.originator_serial_number
          cm.connections)) [
            | inl used ↦ subst (Good left) (sym (refused req cm used)) (h, (lo, omega arith))
            | inr unused ↦
                let range : InRange 1 cm = (lo, omega arith) in
                let id = cm.next_conn_id + 1 in
                let c = new_connection req id in
                let next : (open_connection callbacks req cm).0.next_conn_id ≡ id =
                  opened_next req cm range unused in
                let table = open_connection_fresh req cm h range unused in
                let unlike = triad_not_in_use _ _ _ cm.connections unused in
                (
                  record {
                    apart = subst Apart (sym table) (
                        Apart-join cm.connections (id, c) h.apart
                          (Differ-All id c cm.connections
                            (fresh_id cm.next_conn_id cm.connections h.issued) unlike));
                    issued =
                        subst (λ n. All (Issued n) (open_connection callbacks req cm).0.connections)
                          (sym next)
                          (subst (All (Issued id)) (sym table) (
                            All-join (Issued id) cm.connections (id, c)
                              (later cm.next_conn_id cm.connections h.issued)
                              (omega arith, omega arith, refl)));
                  },
                  (omega (arith, next), omega (arith, next)),
                )
          ]

  close_connection-Good :
      (left : ℕ) (req : ForwardCloseRequest) (cm : ConnectionManager W)
      → Good left cm
      → Good left (close_connection callbacks req cm).0
  unfolding close_connection
  close_connection-Good left req cm (h, range) = (
    record {
      apart = Apart-take_triad _ _ _ cm.connections h.apart;
      issued = All-take_triad (Issued cm.next_conn_id) _ _ _ cm.connections h.issued;
    },
    range,
  )

  less : (left : ℕ) (cm : ConnectionManager W) → Good (left + 1) cm → Good left cm
  less left cm (h, (lo, hi)) = (h, (lo, omega arith))

  open_decoded-Good :
      (left : ℕ) (req : Go ForwardOpenRequest) (cm : ConnectionManager W)
      → Good (left + 1) cm
      → Good left (open_decoded callbacks req cm).0
  unfolding open_decoded
  open_decoded-Good left (ok req) cm h = open_connection-Good left req cm h
  open_decoded-Good left (err e) cm h = less left cm h
  open_decoded-Good left panic cm h = less left cm h

  close_decoded-Good :
      (left : ℕ) (req : Go ForwardCloseRequest) (cm : ConnectionManager W)
      → Good left cm
      → Good left (close_decoded callbacks req cm).0
  unfolding close_decoded
  close_decoded-Good left (ok req) cm h = close_connection-Good left req cm h
  close_decoded-Good left (err e) cm h = h
  close_decoded-Good left panic cm h = h

  handle_request-Good :
      (left service : ℕ) (path req_data : List ℕ) (cm : ConnectionManager W)
      → Good (left + 1) cm
      → Good left (handle_request callbacks service path req_data cm).0
  unfolding handle_request handle_forward_open handle_forward_close
  handle_request-Good left service path req_data cm h = elim (Bool-cases (service == 84)) [
    | inl a ↦ rw (handle_request, a) (open_decoded-Good left _ cm h)
    | inr a ↦ elim (Bool-cases (service == 78)) [
      | inl b ↦ rw (handle_request, a, b) (close_decoded-Good left _ cm (less left cm h))
      | inr b ↦ rw (handle_request, a, b) (less left cm h)
    ]
  ]

  -- Requests one after the other: service, path and data
  abbrev pub serve_all : List (ℕ × List ℕ × List ℕ) → ConnectionManager W → ConnectionManager W
  serve_all [] cm = cm
  serve_all ((service, path, req_data) ∷ requests) cm =
      serve_all requests (handle_request callbacks service path req_data cm).0

  serve_all-Good :
      (requests : List (ℕ × List ℕ × List ℕ)) (cm : ConnectionManager W)
      → Good (length requests) cm
      → Good 0 (serve_all requests cm)
  serve_all-Good [] cm h = h
  serve_all-Good ((service, path, req_data) ∷ requests) cm (h, (lo, hi)) =
      serve_all-Good requests _
        (handle_request-Good (length requests) service path req_data cm (h, (lo, omega arith)))

  -- After fewer than 2147483648 requests of any service and data to a new connection manager, the
  -- table's entries have different IDs above 2147483648, which itself is not given out, and
  -- different triads, and each is the ID of its connection.
  pub serve_all-IsTable :
      (w : W) (requests : List (ℕ × List ℕ × List ℕ))
      → length requests < 2147483648
      → IsTable (serve_all requests (new_connection_manager callbacks w))
  unfolding new_connection_manager
  serve_all-IsTable w requests few =
      (serve_all-Good requests _ (record { apart = tt; issued = tt }, (omega arith, omega arith))).0
