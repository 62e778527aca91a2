-- ===== src/EthernetIp/Objects/ConnMgr/Opening.antt =====
-- A connection that is opened, opened again, and closed.
use goindustrial.Base.{ℕ, ◌+◌, ◌≡◌, refl, ap, ◌∙◌, List, [], ◌∷◌, ◌++◌, true, false, some, arith}
use goindustrial.Base.{Go, ok, err, cip_error}
use goindustrial.EthernetIp.Objects.ConnMgr.Requests.{
  ForwardOpenRequest, forward_open_encode, IsForwardOpen, forward_open_decode-forward_open_encode,
  ForwardCloseRequest, forward_close_encode, IsForwardClose,
  forward_close_decode-forward_close_encode,
}
use goindustrial.EthernetIp.Objects.ConnMgr.{
  ConnectionManager, Callbacks, has_triad, triad_in_use, put, new_connection, call_on_open,
  call_on_close, open_connection, open_decoded, handle_forward_open, close_connection,
  close_decoded, handle_forward_close, forward_open_response, forward_close_response,
}
use goindustrial.EthernetIp.Objects.ConnMgr.Table.{
  Entry, IsTable, triad_not_in_use, put_fresh, take_triad_last,
}
use goindustrial.EthernetIp.Objects.ConnMgr.Invariant.{InRange, opened_id, fresh_id}

-- The triad of the request is not in the table.
abbrev pub Unused : {W : Type 0} → ForwardOpenRequest → ConnectionManager W → Type 0
Unused req cm =
    triad_in_use req.connection_serial_number req.vendor_id req.originator_serial_number
      cm.connections
    ≡ false

abbrev pub SameTriad : ForwardOpenRequest → ForwardCloseRequest → Type 0
SameTriad req closing =
    (closing.connection_serial_number ≡ req.connection_serial_number)
    × (closing.vendor_id ≡ req.vendor_id)
    × (closing.originator_serial_number ≡ req.originator_serial_number)

has_triad-new_connection :
    (req : ForwardOpenRequest) (id : ℕ)
    → has_triad req.connection_serial_number req.vendor_id req.originator_serial_number
        (new_connection req id)
      ≡ true
unfolding has_triad new_connection
has_triad-new_connection req id = ground arith

triad_in_use-last :
    (serial vendor originator : ℕ) (entries : List Entry) (e : Entry)
    → has_triad serial vendor originator e.1 ≡ true
    → triad_in_use serial vendor originator (entries ++ e ∷ []) ≡ true
unfolding triad_in_use
triad_in_use-last serial vendor originator [] e h = rw (triad_in_use, h) refl
triad_in_use-last serial vendor originator ((id, c) ∷ entries) e h =
    rw (triad_in_use, triad_in_use-last serial vendor originator entries e h) (ground arith)

module _ {W : Type 0} (callbacks : Callbacks W) where
  handle_forward_open-encode :
      (req : ForwardOpenRequest) (cm : ConnectionManager W)
      → IsForwardOpen req
      → handle_forward_open callbacks (forward_open_encode req) cm
        ≡ open_connection callbacks req cm
  unfolding handle_forward_open open_decoded
  handle_forward_open-encode req cm fits =
      rw (forward_open_decode-forward_open_encode req fits) refl

  handle_forward_close-encode :
      (closing : ForwardCloseRequest) (cm : ConnectionManager W)
      → IsForwardClose closing
      → handle_forward_close callbacks (forward_close_encode closing) cm
        ≡ close_connection callbacks closing cm
  unfolding handle_forward_close close_decoded
  handle_forward_close-encode closing cm fits =
      rw (forward_close_decode-forward_close_encode closing fits) refl

  -- The manager with the connection of a request, under an ID, in a table
  abbrev with_table :
      ForwardOpenRequest → ConnectionManager W → ℕ → List Entry → ConnectionManager W
  with_table req cm id entries = record {
    connections = entries;
    next_conn_id = id;
    world = call_on_open callbacks callbacks.on_open (new_connection req id) req cm.world;
  }

  -- The manager with the connection of a request under the next ID
  abbrev pub with_connection : ForwardOpenRequest → ConnectionManager W → ConnectionManager W
  with_connection req cm =
      let id = cm.next_conn_id + 1 in
      with_table req cm id (cm.connections ++ (id, new_connection req id) ∷ [])

  open_connection-Unused :
      (req : ForwardOpenRequest) (cm : ConnectionManager W)
      → IsTable cm
      → InRange callbacks 1 cm
      → Unused req cm
      → open_connection callbacks req cm
        ≡ (with_connection req cm, ok (forward_open_response req (cm.next_conn_id + 1)))
  unfolding open_connection
  open_connection-Unused req cm h range unused =
      let id = cm.next_conn_id + 1 in
      let result : ℕ → List Entry → ConnectionManager W × Go (List ℕ) =
        λ n entries. (with_table req cm n entries, ok (forward_open_response req n)) in
      simp (open_connection, unused)
        (ap (λ n. result n (put n (new_connection req n) cm.connections))
            (opened_id callbacks cm range)
          ∙ ap (result id) (
              put_fresh id (new_connection req id) cm.connections
                (fresh_id cm.next_conn_id cm.connections h.issued)))

  open_connection_again :
      (req : ForwardOpenRequest) (cm : ConnectionManager W)
      → open_connection callbacks req (with_connection req cm)
        ≡ (with_connection req cm, err (cip_error 1 (256 ∷ [])))
  unfolding open_connection
  open_connection_again req cm =
      let id = cm.next_conn_id + 1 in
      let used =
        triad_in_use-last req.connection_serial_number req.vendor_id req.originator_serial_number
          cm.connections (id, new_connection req id) (has_triad-new_connection req id) in
      rw (open_connection, used) refl

  close_connection_opened :
      (req : ForwardOpenRequest) (closing : ForwardCloseRequest) (cm : ConnectionManager W)
      → SameTriad req closing
      → Unused req cm
      → close_connection callbacks closing (with_connection req cm) ≡ (
        record {
          connections = cm.connections;
          next_conn_id = cm.next_conn_id + 1;
          world =
              call_on_close callbacks callbacks.on_close
                (some (new_connection req (cm.next_conn_id + 1)))
                (with_connection req cm).world;
        },
        ok (forward_close_response closing),
      )
  unfolding close_connection
  close_connection_opened req closing cm (a, b, c) unused =
      let id = cm.next_conn_id + 1 in
      let found =
        take_triad_last req.connection_serial_number req.vendor_id req.originator_serial_number
          cm.connections (id, new_connection req id) (triad_not_in_use _ _ _ cm.connections unused)
          (has_triad-new_connection req id) in
      simp (close_connection, a, b, c, found) refl

  -- With a table whose entries are apart, with an ID left: an encoded Forward_Open whose fields and
  -- path fit and whose triad is unused opens a connection under the next ID and calls the callback;
  -- the same request again is refused as in use, without any effect; an encoded Forward_Close with
  -- its triad gives the table back as it was before and calls the other callback with that
  -- connection.
  pub open_again_close :
      (req : ForwardOpenRequest) (closing : ForwardCloseRequest) (cm : ConnectionManager W)
      → IsForwardOpen req
      → IsForwardClose closing
      → SameTriad req closing
      → IsTable cm
      → InRange callbacks 1 cm
      → Unused req cm
      → let id = cm.next_conn_id + 1 in
        let cm' = with_connection req cm in
        (handle_forward_open callbacks (forward_open_encode req) cm
          ≡ (cm', ok (forward_open_response req id)))
        × (handle_forward_open callbacks (forward_open_encode req) cm'
            ≡ (cm', err (cip_error 1 (256 ∷ []))))
        × (handle_forward_close callbacks (forward_close_encode closing) cm' ≡ (
          record {
            connections = cm.connections;
            next_conn_id = id;
            world =
                call_on_close callbacks callbacks.on_close (some (new_connection req id)) cm'.world;
          },
          ok (forward_close_response closing),
        ))
  open_again_close req closing cm fits fits' same h range unused = (
    handle_forward_open-encode req cm fits ∙ open_connection-Unused req cm h range unused,
    handle_forward_open-encode req (with_connection req cm) fits ∙ open_connection_again req cm,
    handle_forward_close-encode closing (with_connection req cm) fits'
        ∙ close_connection_opened req closing cm same unused,
  )
