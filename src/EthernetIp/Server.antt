-- ===== src/EthernetIp/Server.antt =====
-- protocol/ethernetip/server.go: the messages inside the commands SendRRData and SendUnitData, which
-- go to the router. The objects of the router share a state W.
pub mod Conn
pub mod Packets
pub mod Messages
pub mod Sessions
pub mod Answers
use goindustrial.Base.{
  ℕ, ◌+◌, ◌*◌, ltb, not, if◌then◌else◌, List, [], ◌∷◌, Option, none, some, length, drop,
}
use goindustrial.Base.{Go, Error, ok, err, panic, cip_error, require}
use goindustrial.Base.Bytes.Reader.{le16}
use goindustrial.Base.Stateful.{Exec, lift, ◌>>=◌, ◌>>◌}
use goindustrial.EthernetIp.Eip.{
  CpfItem, new_cpf_item, new_common_packet_format, cpf_encode, decode_common_packet_format,
  find_item_by_type,
}
use goindustrial.EthernetIp.Eip.Commands.{
  item_null_address, item_connected_address, item_connected_data, item_unconnected_message,
}
use goindustrial.EthernetIp.Cip.Message.{
  status_path_segment_error, decode_message_router_request, response_encode,
}
use goindustrial.EthernetIp.Cip.Router.{MessageRouter, dispatch}

-- `errShortData` and `errNoCPFItem`
abbrev pub err_short_data : Error
err_short_data = cip_error status_path_segment_error []

abbrev pub err_no_cpf_item : Error
err_no_cpf_item = cip_error status_path_segment_error []

-- Interface handle and timeout, all zero, before a packet
abbrev pub with_interface : List ℕ → List ℕ
with_interface cpf_data = 0 ∷ 0 ∷ 0 ∷ 0 ∷ 0 ∷ 0 ∷ cpf_data

unfoldable pub wrap_unconnected_response : List ℕ → List ℕ
wrap_unconnected_response response = with_interface (
    cpf_encode (
      new_common_packet_format
        (new_cpf_item item_null_address [] ∷ new_cpf_item item_unconnected_message response ∷ [])))

unfoldable pub wrap_connected_response : List ℕ → ℕ → List ℕ → List ℕ
wrap_connected_response addr_data seq_count response = with_interface (
    cpf_encode (
      new_common_packet_format (
        new_cpf_item item_connected_address addr_data
        ∷ new_cpf_item item_connected_data (le16 seq_count response)
        ∷ [])))

-- The data of an item that has at least n bytes
unfoldable pub item_data : ℕ → Option CpfItem → Go (List ℕ)
item_data n none = err err_no_cpf_item
item_data n (some item) =
    if ltb (length item.payload) n then err err_no_cpf_item else ok item.payload

-- `dataItem.Data[0:2]` and `[2:]`, of data whose length was tested
unfoldable pub split_sequence : List ℕ → Go (ℕ × List ℕ)
split_sequence (a ∷ b ∷ pdu) = ok (a + b * 256, pdu)
split_sequence _ = panic

module _ {W : Type 0} where
  -- Decode, `Dispatch` and `Encode`
  unfoldable pub serve_message : MessageRouter W → List ℕ → Exec W (List ℕ)
  serve_message mr bytes = do
    request ← lift (decode_message_router_request bytes)
    response ← dispatch mr request
    lift (ok (response_encode response))

  -- `handleSendRRData`
  unfoldable pub handle_send_rr_data : MessageRouter W → List ℕ → Exec W (List ℕ)
  unfolding serve_message
  handle_send_rr_data mr bytes = do
    lift (require (not (ltb (length bytes) 6)) err_short_data)
    cpf ← lift (decode_common_packet_format (drop 6 bytes))
    message ← lift (item_data 0 (find_item_by_type item_unconnected_message cpf))
    response ← serve_message mr message
    lift (ok (wrap_unconnected_response response))

  -- `handleSendUnitData`
  unfoldable pub handle_send_unit_data : MessageRouter W → List ℕ → Exec W (List ℕ)
  unfolding serve_message
  handle_send_unit_data mr bytes = do
    lift (require (not (ltb (length bytes) 6)) err_short_data)
    cpf ← lift (decode_common_packet_format (drop 6 bytes))
    addr_data ← lift (item_data 4 (find_item_by_type item_connected_address cpf))
    sequenced ← lift (item_data 2 (find_item_by_type item_connected_data cpf))
    (seq_count, pdu) ← lift (split_sequence sequenced)
    response ← serve_message mr pdu
    lift (ok (wrap_connected_response addr_data seq_count response))
