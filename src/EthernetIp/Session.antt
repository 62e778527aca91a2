-- ===== src/EthernetIp/Session.antt =====
-- protocol/ethernetip/session.go, and conn.go below it: the exchanges of a client. The connection is a
-- parameter: for a packet that is written, the bytes that arrive then. Writes succeed.
pub mod Link
pub mod Requests
pub mod Exchange
use goindustrial.Base.{
  ℕ, ◌==◌, ltb, not, List, [], ◌∷◌, ◌++◌, Option, none, some, length, drop, replicate,
}
use goindustrial.Base.{
  Go, Error, ok, err, panic, require, session_status, session_data_too_short, session_cpf_failed,
  session_missing_item, read_header_failed, read_data_failed,
}
use goindustrial.Base.Bytes.{u16}
use goindustrial.Base.Bytes.Reader.{Read, read_full}
use goindustrial.Base.Stateful.{Exec, lift, query, ◌>>=◌, ◌>>◌}
use goindustrial.EthernetIp.Eip.{
  EncapsulationHeader, header_encode, header_decode, CpfItem, new_cpf_item,
  new_common_packet_format, CommonPacketFormat, cpf_encode, decode_common_packet_format,
  find_item_by_type,
}
use goindustrial.EthernetIp.Eip.Commands.{
  command_list_services, command_list_identity, command_register_session,
  command_unregister_session, command_send_rr_data, eip_status_success, item_null_address,
  item_unconnected_message, register_session_data,
}
use goindustrial.EthernetIp.Eip.Discovery.{
  ListIdentityItem, ListServicesItem, decode_list_identity_response, decode_list_services_response,
}
use goindustrial.EthernetIp.Cip.Message.{
  MessageRouterRequest, request_encode, MessageRouterResponse, decode_message_router_response,
}

-- The connection's other side, the handle, and the bytes that arrived and were not read
pub record Session (P : Type 0) : Type 0 where
  pub peer : P
  pub handle : ℕ
  pub unread : List ℕ

abbrev pub new_session : {P : Type 0} → P → Session P
new_session peer = record { peer = peer; handle = 0; unread = [] }

-- The header of `Send`
abbrev pub packet_header : ℕ → List ℕ → ℕ → EncapsulationHeader
packet_header command bytes session_handle = record {
  command = command;
  data_length = u16 (length bytes);
  session_handle = session_handle;
  status = 0;
  sender_context = replicate 8 0;
  options = 0;
}

-- The data of SendRRData, behind interface handle and timeout
unfoldable pub rr_data : List ℕ → List ℕ
rr_data request =
    0
    ∷ 0
    ∷ 0
    ∷ 0
    ∷ 0
    ∷ 0
    ∷ cpf_encode (
        new_common_packet_format
          (new_cpf_item item_null_address [] ∷ new_cpf_item item_unconnected_message request ∷ []))

unfoldable pub decoded_cpf : Go CommonPacketFormat → Go CommonPacketFormat
decoded_cpf (err e) = err (session_cpf_failed e)
decoded_cpf r = r

unfoldable pub message_of : Option CpfItem → Go (List ℕ)
message_of none = err session_missing_item
message_of (some item) = ok item.payload

module _ {P : Type 0} where
  received_data :
      Session P
      → EncapsulationHeader
      → Read (List ℕ)
      → Session P × Go (EncapsulationHeader × List ℕ)
  received_data s h (ok (bytes, rest)) = (record s { unread = rest }, ok (h, bytes))
  received_data s h (err e) = (record s { unread = [] }, err (read_data_failed e))
  received_data s h panic = (s, panic)

  received : Session P → Read EncapsulationHeader → Session P × Go (EncapsulationHeader × List ℕ)
  unfolding received_data
  received s (ok (h, rest)) = received_data s h (read_full h.data_length rest)
  received s (err e) = (record s { unread = [] }, err (read_header_failed e))
  received s panic = (s, panic)

  -- `Receive` of conn.go
  unfoldable pub receive : Exec (Session P) (EncapsulationHeader × List ℕ)
  unfolding received
  receive s = received s (header_decode s.unread)

  unfoldable pub set_handle : ℕ → Exec (Session P) (Unit {0})
  set_handle h s = (record s { handle = h }, ok tt)

module _ {P : Type 0} (wire : List ℕ → P → P × List ℕ) where
  -- `Send` of conn.go
  unfoldable pub conn_send : ℕ → List ℕ → ℕ → Exec (Session P) (Unit {0})
  conn_send command bytes session_handle s =
      let (peer, arrived) =
        wire (header_encode (packet_header command bytes session_handle) ++ bytes) s.peer in
      (record s { peer = peer; unread = s.unread ++ arrived }, ok tt)

  -- A command that is sent, and the data of its answer
  unfoldable pub ask : ℕ → List ℕ → ℕ → Exec (Session P) (EncapsulationHeader × List ℕ)
  unfolding conn_send receive
  ask command bytes session_handle = do
    conn_send command bytes session_handle
    (h, answer) ← receive
    lift (require (h.status == eip_status_success) (session_status h.status))
    lift (ok (h, answer))

  unfoldable pub register : Exec (Session P) (Unit {0})
  unfolding ask set_handle register_session_data
  register = do
    (h, _) ← ask command_register_session register_session_data 0
    set_handle h.session_handle

  unfoldable pub unregister : Exec (Session P) (Unit {0})
  unfolding conn_send
  unregister = do handle ← query (λ s. ok s.handle); conn_send command_unregister_session [] handle

  unfoldable pub send_rr_data : List ℕ → Exec (Session P) (List ℕ)
  unfolding ask rr_data decoded_cpf message_of
  send_rr_data request = do
    handle ← query (λ s. ok s.handle)
    (_, answer) ← ask command_send_rr_data (rr_data request) handle
    lift (require (not (ltb (length answer) 6)) session_data_too_short)
    cpf ← lift (decoded_cpf (decode_common_packet_format (drop 6 answer)))
    lift (message_of (find_item_by_type item_unconnected_message cpf))

  -- `SendCIPRequest`
  unfoldable pub send_cip_request : MessageRouterRequest → Exec (Session P) MessageRouterResponse
  unfolding send_rr_data
  send_cip_request request = do
    answer ← send_rr_data (request_encode request)
    lift (decode_message_router_response answer)

  unfoldable pub list_identity : Exec (Session P) (List ListIdentityItem)
  unfolding ask
  list_identity = do
    (_, answer) ← ask command_list_identity [] 0
    lift (decode_list_identity_response answer)

  unfoldable pub list_services : Exec (Session P) (List ListServicesItem)
  unfolding ask
  list_services = do
    (_, answer) ← ask command_list_services [] 0
    lift (decode_list_services_response answer)
