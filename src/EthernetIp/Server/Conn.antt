-- ===== src/EthernetIp/Server/Conn.antt =====
-- protocol/ethernetip/server.go: `HandleConn`, which reads the packets of one client, serves their
-- commands and writes the answers. The input is the bytes that the client sends before it closes its
-- side; writes succeed, and the log, the callbacks and `Stop` are left out. A panic in an object is
-- not recovered, and ends the process.
use goindustrial.Base.{
  ℕ, zero, suc, ◌+◌, ◌%◌, ◌^◌, ◌==◌, ltb, not, ◌||◌, if◌then◌else◌, List, [], ◌∷◌, ◌++◌, Option,
  none, some, length, replicate,
}
use goindustrial.Base.{Go, ok, err, panic}
use goindustrial.Base.Bytes.{u16}
use goindustrial.Base.Bytes.Reader.{Read, read_full, le16, le32}
use goindustrial.EthernetIp.Eip.{EncapsulationHeader, header_decode}
use goindustrial.EthernetIp.Eip.Commands.{
  command_list_services, command_list_identity, command_register_session,
  command_unregister_session, command_send_rr_data, command_send_unit_data, eip_status_success,
  eip_status_invalid_command, eip_status_invalid_session_handle, item_list_identity,
  item_list_services,
}
use goindustrial.EthernetIp.Eip.Discovery.{
  ListIdentityItem, ListServicesItem, encode_list_identity_response, encode_list_services_response,
}
use goindustrial.EthernetIp.Cip.Router.{MessageRouter}
use goindustrial.EthernetIp.Server.{handle_send_rr_data, handle_send_unit_data}

-- `NewServer`, with its router and its identity
pub record Server (W : Type 0) : Type 0 where
  pub router : MessageRouter W
  pub identity : ListIdentityItem

abbrev pub default_identity : ListIdentityItem
default_identity = record {
  type_id = item_list_identity;
  data_length = 0;
  encaps_version = 1;
  socket_addr = replicate 16 0;
  vendor_id = 0;
  device_type = 0;
  product_code = 0;
  revision = 0 ∷ 0 ∷ [];
  status = 0;
  serial_number = 0;
  -- "GoIndustrial EIP Server"
  product_name =
      71 ∷ 111 ∷ 73 ∷ 110 ∷ 100 ∷ 117 ∷ 115 ∷ 116 ∷ 114 ∷ 105 ∷ 97 ∷ 108 ∷ 32 ∷ 69 ∷ 73 ∷ 80 ∷ 32
      ∷ 83 ∷ 101 ∷ 114 ∷ 118 ∷ 101 ∷ 114 ∷ [];
  state = 0;
}

-- The item of `handleListServices`; its name is "Communications".
abbrev pub communications : ListServicesItem
communications = record {
  type_id = item_list_services;
  data_length = 0;
  version = 1;
  capability_flags = 32;
  name = 67 ∷ 111 ∷ 109 ∷ 109 ∷ 117 ∷ 110 ∷ 105 ∷ 99 ∷ 97 ∷ 116 ∷ 105 ∷ 111 ∷ 110 ∷ 115 ∷ [];
}

-- What the loop of a client reads and writes: the state of the objects, the counter of sessions,
-- which the server's clients share, the variable `sessionHandle` with its copy in `connState`, and the
-- bytes written so far.
pub record LoopState (W : Type 0) : Type 0 where
  pub world : W
  pub next_session : ℕ
  pub session_handle : ℕ
  pub state_handle : ℕ
  pub output : List ℕ

-- `session`, `status` and `respData`
pub record CommandReply : Type 0 where
  pub session : ℕ
  pub status : ℕ
  pub response_data : List ℕ

-- What a command comes to: an answer, the end of the connection, or a panic.
pub data Served (W : Type 0) : Type 0 where
  reply : LoopState W → CommandReply → Served W
  hang_up : LoopState W → Served W
  burst : Served W

pub data Round (W : Type 0) : Type 0 where
  next : LoopState W → List ℕ → Round W
  closed : LoopState W → Round W
  crashed : Round W

abbrev pub status_reply : ℕ → ℕ → CommandReply
status_reply session status = record { session = session; status = status; response_data = [] }

abbrev pub data_reply : ℕ → List ℕ → CommandReply
data_reply session bytes = record {
  session = session;
  status = eip_status_success;
  response_data = bytes;
}

module _ {W : Type 0} where
  -- An error of a handler is an invalid command.
  unfoldable pub with_status : LoopState W → ℕ → W × Go (List ℕ) → Served W
  with_status c session (w, ok bytes) = reply (record c { world = w }) (data_reply session bytes)
  with_status c session (w, err e) =
      reply (record c { world = w }) (status_reply session eip_status_invalid_command)
  with_status c session (w, panic) = burst

  unfoldable pub register_session : LoopState W → Served W
  register_session c =
      let handle = (c.next_session + 1) % 2 ^ 32 in
      reply (record c { next_session = handle; session_handle = handle; state_handle = handle })
        (data_reply handle (le16 1 (le16 0 [])))

  -- The test of the two commands that need a session
  unfoldable pub in_session : LoopState W → ℕ → (Unit {0} → W × Go (List ℕ)) → Served W
  unfolding with_status
  in_session c session handle =
      if not (session == c.session_handle) || (c.session_handle == 0)
      then reply c (status_reply session eip_status_invalid_session_handle)
      else with_status c session (handle tt)

  -- The switch on the command
  unfoldable pub serve_command : Server W → EncapsulationHeader → List ℕ → LoopState W → Served W
  unfolding register_session in_session handle_send_rr_data handle_send_unit_data
  serve_command s h bytes c =
      if h.command == command_register_session
      then register_session c
      else if h.command == command_unregister_session
      then hang_up c
      else if h.command == command_list_identity
      then reply c (data_reply h.session_handle (encode_list_identity_response (s.identity ∷ [])))
      else if h.command == command_list_services
      then reply c
          (data_reply h.session_handle (encode_list_services_response (communications ∷ [])))
      else if h.command == command_send_rr_data
      then in_session c h.session_handle (λ _. handle_send_rr_data s.router bytes c.world)
      else if h.command == command_send_unit_data
      then in_session c h.session_handle (λ _. handle_send_unit_data s.router bytes c.world)
      else reply c (status_reply h.session_handle eip_status_invalid_command)

-- The answer's header, and its data
unfoldable pub reply_encode : EncapsulationHeader → CommandReply → List ℕ
reply_encode h r = le16 h.command (
    le16 (u16 (length r.response_data))
      (le32 r.session (le32 r.status (h.sender_context ++ le32 0 r.response_data))))

module _ {W : Type 0} where
  unfoldable pub write_reply : EncapsulationHeader → List ℕ → Served W → Round W
  unfolding reply_encode
  write_reply h input (reply c r) = next (record c { output = c.output ++ reply_encode h r }) input
  write_reply h input (hang_up c) = closed c
  write_reply h input burst = crashed

  unfoldable pub on_packet : Server W → LoopState W → EncapsulationHeader → Read (List ℕ) → Round W
  unfolding write_reply serve_command
  on_packet s c h (ok (bytes, input)) = write_reply h input (serve_command s h bytes c)
  on_packet s c h (err _) = closed c
  on_packet s c h panic = crashed

  -- `maxPacketSize` bounds the data.
  unfoldable pub on_packet_header : Server W → LoopState W → Read EncapsulationHeader → Round W
  unfolding on_packet
  on_packet_header s c (ok (h, input)) =
      if ltb 4096 h.data_length then closed c else on_packet s c h (read_full h.data_length input)
  on_packet_header s c (err _) = closed c
  on_packet_header s c panic = crashed

  -- The body of the loop
  unfoldable pub conn_round : Server W → LoopState W → List ℕ → Round W
  unfolding on_packet_header
  conn_round s c input = on_packet_header s c (header_decode input)

  -- `HandleConn`, on fuel
  unfoldable pub handle_conn : ℕ → Server W → LoopState W → List ℕ → Option (Round W)
  unfolding conn_round
  handle_conn zero s c input = none
  handle_conn (suc fuel) s c input = elim (conn_round s c input) [
    | next c' rest ↦ handle_conn fuel s c' rest
    | closed c' ↦ some (closed c')
    | crashed ↦ some crashed
  ]
