-- ===== src/EthernetIp/Objects/ConnMgr/Requests.antt =====
-- objects/connmgr/types.go and the readers of connmgr.go: the requests Forward_Open and
-- Forward_Close.
use goindustrial.Base.{
  ℕ, ◌/◌, ◌%◌, ◌*◌, ◌<◌, ◌≤◌, ◌≡◌, ◌≢◌, refl, sym, ap, ◌∙◌, List, [], ◌∷◌, ◌++◌, append-nil, length,
  arith,
}
use goindustrial.Base.{Go, ok, ◌>>=◌}
use goindustrial.Base.Bytes.{u8}
use goindustrial.Base.Bytes.Reader.{
  read_u8, read_full, read_le16, read_le32, le16, le32, read_full-append, read_le16-le16,
  read_le32-le32,
}
use goindustrial.EthernetIp.Cip.Message.{read_some}
use goindustrial.EthernetIp.Cip.Message.Codec.{read_some-append}

pub record ForwardOpenRequest : Type 0 where
  pub priority_time_tick : ℕ
  pub timeout_ticks : ℕ
  pub ot_connection_id : ℕ
  pub to_connection_id : ℕ
  pub connection_serial_number : ℕ
  pub vendor_id : ℕ
  pub originator_serial_number : ℕ
  pub connection_timeout_multiplier : ℕ
  pub reserved : List ℕ
  pub ot_rpi : ℕ
  pub ot_network_connection_params : ℕ
  pub to_rpi : ℕ
  pub to_network_connection_params : ℕ
  pub transport_type_trigger : ℕ
  pub connection_path_size : ℕ
  pub connection_path : List ℕ

unfoldable pub forward_open_encode : ForwardOpenRequest → List ℕ
forward_open_encode r =
    r.priority_time_tick
    ∷ r.timeout_ticks
    ∷ le32 r.ot_connection_id (
        le32 r.to_connection_id (
          le16 r.connection_serial_number (
            le16 r.vendor_id (
              le32 r.originator_serial_number (
                r.connection_timeout_multiplier
                ∷ (r.reserved
                    ++ le32 r.ot_rpi (
                        le16 r.ot_network_connection_params (
                          le32 r.to_rpi (
                            le16 r.to_network_connection_params (
                              r.transport_type_trigger
                              ∷ u8 (length r.connection_path / 2)
                              ∷ r.connection_path))))))))))

-- The reads at the start of `HandleForwardOpen`
unfoldable pub forward_open_decode : List ℕ → Go ForwardOpenRequest
forward_open_decode bytes = do
  (priority_time_tick, bytes) ← read_u8 bytes
  (timeout_ticks, bytes) ← read_u8 bytes
  (ot_connection_id, bytes) ← read_le32 bytes
  (to_connection_id, bytes) ← read_le32 bytes
  (connection_serial_number, bytes) ← read_le16 bytes
  (vendor_id, bytes) ← read_le16 bytes
  (originator_serial_number, bytes) ← read_le32 bytes
  (connection_timeout_multiplier, bytes) ← read_u8 bytes
  (reserved, bytes) ← read_full 3 bytes
  (ot_rpi, bytes) ← read_le32 bytes
  (ot_network_connection_params, bytes) ← read_le16 bytes
  (to_rpi, bytes) ← read_le32 bytes
  (to_network_connection_params, bytes) ← read_le16 bytes
  (transport_type_trigger, bytes) ← read_u8 bytes
  (connection_path_size, bytes) ← read_u8 bytes
  (connection_path, bytes) ← read_some (connection_path_size * 2) bytes
  ok (record {
    priority_time_tick = priority_time_tick;
    timeout_ticks = timeout_ticks;
    ot_connection_id = ot_connection_id;
    to_connection_id = to_connection_id;
    connection_serial_number = connection_serial_number;
    vendor_id = vendor_id;
    originator_serial_number = originator_serial_number;
    connection_timeout_multiplier = connection_timeout_multiplier;
    reserved = reserved;
    ot_rpi = ot_rpi;
    ot_network_connection_params = ot_network_connection_params;
    to_rpi = to_rpi;
    to_network_connection_params = to_network_connection_params;
    transport_type_trigger = transport_type_trigger;
    connection_path_size = connection_path_size;
    connection_path = connection_path;
  })

pub record ForwardCloseRequest : Type 0 where
  pub priority_time_tick : ℕ
  pub timeout_ticks : ℕ
  pub connection_serial_number : ℕ
  pub vendor_id : ℕ
  pub originator_serial_number : ℕ
  pub connection_path_size : ℕ
  pub reserved : ℕ
  pub connection_path : List ℕ

unfoldable pub forward_close_encode : ForwardCloseRequest → List ℕ
forward_close_encode r =
    r.priority_time_tick
    ∷ r.timeout_ticks
    ∷ le16 r.connection_serial_number (
        le16 r.vendor_id (
          le32 r.originator_serial_number
            (u8 (length r.connection_path / 2) ∷ r.reserved ∷ r.connection_path)))

-- The reads at the start of `HandleForwardClose`
unfoldable pub forward_close_decode : List ℕ → Go ForwardCloseRequest
forward_close_decode bytes = do
  (priority_time_tick, bytes) ← read_u8 bytes
  (timeout_ticks, bytes) ← read_u8 bytes
  (connection_serial_number, bytes) ← read_le16 bytes
  (vendor_id, bytes) ← read_le16 bytes
  (originator_serial_number, bytes) ← read_le32 bytes
  (connection_path_size, bytes) ← read_u8 bytes
  (reserved, bytes) ← read_u8 bytes
  (connection_path, bytes) ← read_some (connection_path_size * 2) bytes
  ok (record {
    priority_time_tick = priority_time_tick;
    timeout_ticks = timeout_ticks;
    connection_serial_number = connection_serial_number;
    vendor_id = vendor_id;
    originator_serial_number = originator_serial_number;
    connection_path_size = connection_path_size;
    reserved = reserved;
    connection_path = connection_path;
  })

-- The path fits its length in words, and is not empty.
abbrev pub IsConnectionPath : ℕ → List ℕ → Type 0
IsConnectionPath size path =
    (length path % 2 ≡ 0) × (length path ≤ 510) × (path ≢ []) × (size ≡ length path / 2)

pub record IsForwardOpen (r : ForwardOpenRequest) : Type 0 where
  pub ot_connection_id_fits : r.ot_connection_id < 4294967296
  pub to_connection_id_fits : r.to_connection_id < 4294967296
  pub connection_serial_number_fits : r.connection_serial_number < 65536
  pub vendor_id_fits : r.vendor_id < 65536
  pub originator_serial_number_fits : r.originator_serial_number < 4294967296
  pub reserved_fits : length r.reserved ≡ 3
  pub ot_rpi_fits : r.ot_rpi < 4294967296
  pub ot_params_fit : r.ot_network_connection_params < 65536
  pub to_rpi_fits : r.to_rpi < 4294967296
  pub to_params_fit : r.to_network_connection_params < 65536
  pub path_fits : IsConnectionPath r.connection_path_size r.connection_path

pub record IsForwardClose (r : ForwardCloseRequest) : Type 0 where
  pub connection_serial_number_fits : r.connection_serial_number < 65536
  pub vendor_id_fits : r.vendor_id < 65536
  pub originator_serial_number_fits : r.originator_serial_number < 4294967296
  pub path_fits : IsConnectionPath r.connection_path_size r.connection_path

read_path :
    (size : ℕ) (path : List ℕ)
    → IsConnectionPath size path
    → read_some (size * 2) path ≡ ok (path, [])
read_path size path (even, short, some_, counts) =
    ap (λ t. read_some (size * 2) t) (sym (append-nil path))
    ∙ read_some-append path [] (size * 2) (omega arith) (λ e. some_ (sym (append-nil path) ∙ e))

size_byte : (size : ℕ) (path : List ℕ) → IsConnectionPath size path → u8 (length path / 2) ≡ size
size_byte size path (even, short, _, counts) = omega arith

-- A Forward_Open whose fields and path fit is decoded from its encoding.
pub forward_open_decode-forward_open_encode :
    (r : ForwardOpenRequest) → IsForwardOpen r → forward_open_decode (forward_open_encode r) ≡ ok r
unfolding forward_open_decode forward_open_encode read_u8
forward_open_decode-forward_open_encode r h =
    rw
      (
        read_le32-le32 r.ot_connection_id _ h.ot_connection_id_fits,
        read_le32-le32 r.to_connection_id _ h.to_connection_id_fits,
        read_le16-le16 r.connection_serial_number _ h.connection_serial_number_fits,
        read_le16-le16 r.vendor_id _ h.vendor_id_fits,
        read_le32-le32 r.originator_serial_number _ h.originator_serial_number_fits,
        read_full-append r.reserved _ 3 (sym h.reserved_fits),
        read_le32-le32 r.ot_rpi _ h.ot_rpi_fits,
        read_le16-le16 r.ot_network_connection_params _ h.ot_params_fit,
        read_le32-le32 r.to_rpi _ h.to_rpi_fits,
        read_le16-le16 r.to_network_connection_params _ h.to_params_fit,
      )
      (simp
        (
          read_path r.connection_path_size r.connection_path h.path_fits,
          size_byte r.connection_path_size r.connection_path h.path_fits,
        )
        refl)

-- A Forward_Close whose fields and path fit is decoded from its encoding.
pub forward_close_decode-forward_close_encode :
    (r : ForwardCloseRequest)
    → IsForwardClose r
    → forward_close_decode (forward_close_encode r) ≡ ok r
unfolding forward_close_decode forward_close_encode read_u8
forward_close_decode-forward_close_encode r h =
    rw
      (
        read_le16-le16 r.connection_serial_number _ h.connection_serial_number_fits,
        read_le16-le16 r.vendor_id _ h.vendor_id_fits,
        read_le32-le32 r.originator_serial_number _ h.originator_serial_number_fits,
      )
      (simp
        (
          read_path r.connection_path_size r.connection_path h.path_fits,
          size_byte r.connection_path_size r.connection_path h.path_fits,
        )
        refl)
