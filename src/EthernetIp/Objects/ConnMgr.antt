-- ===== src/EthernetIp/Objects/ConnMgr.antt =====
-- objects/connmgr: the Connection Manager. Its table of connections is a list of entries, of which
-- the code finds at most one by its triad; W is the state that the callbacks reach. What runs under
-- the lock is one step, and the callbacks follow it.
pub mod Requests
pub mod Table
pub mod Invariant
pub mod Opening
use goindustrial.Base.{
  ℕ, ◌+◌, ◌/◌, ◌%◌, ◌*◌, ◌==◌, ◌&&◌, if◌then◌else◌, List, [], ◌∷◌, ◌++◌, Bool, true, false, Option,
  none, some, length,
}
use goindustrial.Base.{Go, Error, ok, err, panic, cip_error}
use goindustrial.Base.Bytes.{u8}
use goindustrial.Base.Bytes.Reader.{le16, le32}
use goindustrial.Base.Stateful.{Exec}
use goindustrial.EthernetIp.Cip.Message.{status_connection_failure, status_service_not_supported}
use goindustrial.EthernetIp.Objects.ConnMgr.Requests.{
  ForwardOpenRequest, forward_open_decode, ForwardCloseRequest, forward_close_decode,
}

abbrev pub service_forward_close : ℕ
service_forward_close = 78

abbrev pub service_forward_open : ℕ
service_forward_open = 84

abbrev pub ext_status_connection_in_use : ℕ
ext_status_connection_in_use = 256

pub record Connection : Type 0 where
  pub ot_connection_id : ℕ
  pub to_connection_id : ℕ
  pub connection_serial_number : ℕ
  pub vendor_id : ℕ
  pub originator_serial_number : ℕ

-- `ConnectionManager`, with the state that the callbacks reach
pub record ConnectionManager (W : Type 0) : Type 0 where
  pub connections : List (ℕ × Connection)
  pub next_conn_id : ℕ
  pub world : W

pub record Callbacks (W : Type 0) : Type 0 where
  pub on_open : Option (Connection → ForwardOpenRequest → W → W)
  pub on_close : Option (Connection → W → W)

-- The comparison of a triad: serial number, vendor, originator
unfoldable pub has_triad : ℕ → ℕ → ℕ → Connection → Bool
has_triad serial vendor originator c =
    (c.connection_serial_number == serial)
    && ((c.vendor_id == vendor) && (c.originator_serial_number == originator))

unfoldable pub triad_in_use : ℕ → ℕ → ℕ → List (ℕ × Connection) → Bool
unfolding has_triad
triad_in_use serial vendor originator [] = false
triad_in_use serial vendor originator ((id, c) ∷ entries) =
    if has_triad serial vendor originator c
    then true
    else triad_in_use serial vendor originator entries

-- `cm.connections[id] = conn`
unfoldable pub put : ℕ → Connection → List (ℕ × Connection) → List (ℕ × Connection)
put id c [] = (id, c) ∷ []
put id c ((i, d) ∷ entries) = if i == id then (id, c) ∷ entries else (i, d) ∷ put id c entries

-- An entry in front of what a search left
unfoldable pub keep :
    ℕ × Connection
    → Option Connection × List (ℕ × Connection)
    → Option Connection × List (ℕ × Connection)
keep entry (found, entries) = (found, entry ∷ entries)

-- The connection with the triad, and the entries without it
unfoldable pub take_triad :
    ℕ → ℕ → ℕ → List (ℕ × Connection) → Option Connection × List (ℕ × Connection)
unfolding keep has_triad
take_triad serial vendor originator [] = (none, [])
take_triad serial vendor originator ((id, c) ∷ entries) =
    if has_triad serial vendor originator c
    then (some c, entries)
    else keep (id, c) (take_triad serial vendor originator entries)

-- The response to a Forward_Open, encoded
unfoldable pub forward_open_response : ForwardOpenRequest → ℕ → List ℕ
forward_open_response req id = le32 req.ot_connection_id (
    le32 id (
      le16 req.connection_serial_number (
        le16 req.vendor_id
          (le32 req.originator_serial_number (le32 req.ot_rpi (le32 req.to_rpi (0 ∷ 0 ∷ [])))))))

unfoldable pub forward_close_response : ForwardCloseRequest → List ℕ
forward_close_response req =
    le16 req.connection_serial_number
      (le16 req.vendor_id (le32 req.originator_serial_number (0 ∷ 0 ∷ [])))

-- The connection of a request, with its new ID
unfoldable pub new_connection : ForwardOpenRequest → ℕ → Connection
new_connection req id = record {
  ot_connection_id = req.ot_connection_id;
  to_connection_id = id;
  connection_serial_number = req.connection_serial_number;
  vendor_id = req.vendor_id;
  originator_serial_number = req.originator_serial_number;
}

module _ {W : Type 0} (callbacks : Callbacks W) where
  unfoldable pub new_connection_manager : W → ConnectionManager W
  new_connection_manager w = record { connections = []; next_conn_id = 2147483648; world = w }

  unfoldable pub call_on_open :
      Option (Connection → ForwardOpenRequest → W → W) → Connection → ForwardOpenRequest → W → W
  call_on_open none c req w = w
  call_on_open (some f) c req w = f c req w

  unfoldable pub call_on_close : Option (Connection → W → W) → Option Connection → W → W
  call_on_close (some f) (some c) w = f c w
  call_on_close _ _ w = w

  -- `HandleForwardOpen`, once the request is decoded
  unfoldable pub open_connection : ForwardOpenRequest → Exec (ConnectionManager W) (List ℕ)
  unfolding triad_in_use put new_connection call_on_open forward_open_response
  open_connection req cm =
      if triad_in_use req.connection_serial_number req.vendor_id req.originator_serial_number
        cm.connections
      then (cm, err (cip_error status_connection_failure (ext_status_connection_in_use ∷ [])))
      else (let id = (cm.next_conn_id + 1) % 4294967296 in
          let c = new_connection req id in
          (
            record {
              connections = put id c cm.connections;
              next_conn_id = id;
              world = call_on_open callbacks.on_open c req cm.world;
            },
            ok (forward_open_response req id),
          ))

  unfoldable pub open_decoded : Go ForwardOpenRequest → Exec (ConnectionManager W) (List ℕ)
  unfolding open_connection
  open_decoded (ok req) cm = open_connection req cm
  open_decoded (err e) cm = (cm, err e)
  open_decoded panic cm = (cm, panic)

  unfoldable pub handle_forward_open : List ℕ → Exec (ConnectionManager W) (List ℕ)
  unfolding open_decoded
  handle_forward_open req_data cm = open_decoded (forward_open_decode req_data) cm

  -- `HandleForwardClose`, once the request is decoded
  unfoldable pub close_connection : ForwardCloseRequest → Exec (ConnectionManager W) (List ℕ)
  unfolding take_triad call_on_close forward_close_response
  close_connection req cm =
      let (closed, entries) =
        take_triad req.connection_serial_number req.vendor_id req.originator_serial_number
          cm.connections in
      (
        record cm {
          connections = entries;
          world = call_on_close callbacks.on_close closed cm.world;
        },
        ok (forward_close_response req),
      )

  unfoldable pub close_decoded : Go ForwardCloseRequest → Exec (ConnectionManager W) (List ℕ)
  unfolding close_connection
  close_decoded (ok req) cm = close_connection req cm
  close_decoded (err e) cm = (cm, err e)
  close_decoded panic cm = (cm, panic)

  unfoldable pub handle_forward_close : List ℕ → Exec (ConnectionManager W) (List ℕ)
  unfolding close_decoded
  handle_forward_close req_data cm = close_decoded (forward_close_decode req_data) cm

  -- `HandleRequest`
  unfoldable pub handle_request : ℕ → List ℕ → List ℕ → Exec (ConnectionManager W) (List ℕ)
  unfolding handle_forward_open handle_forward_close
  handle_request service path req_data cm =
      if service == service_forward_open
      then handle_forward_open req_data cm
      else if service == service_forward_close
      then handle_forward_close req_data cm
      else (cm, err (cip_error status_service_not_supported []))
