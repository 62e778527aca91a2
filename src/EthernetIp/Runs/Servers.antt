-- ===== src/EthernetIp/Runs/Servers.antt =====
-- A server with one object, its packets and a client's session, on small inputs.
use goindustrial.Base.{
  ℕ, ◌+◌, ◌≡◌, ◌≤◌, refl, List, [], ◌∷◌, map, replicate, length, some, inr, arith,
}
use goindustrial.Base.{ok}
use goindustrial.Base.Stateful.{◌>>◌}
use goindustrial.EthernetIp.Eip.Discovery.{
  encode_list_identity_response, decode_list_identity_response,
}
use goindustrial.EthernetIp.Eip.Discovery.Listing.{
  as_sent, IsIdentity, decode_list_identity_response-encode,
}
use goindustrial.EthernetIp.Cip.Message.{MessageRouterRequest, request_encode, response_encode}
use goindustrial.EthernetIp.Cip.Router.{
  MessageRouter, new_message_router, register_object, plain_response, dispatch,
}
use goindustrial.EthernetIp.Server.Conn.{Server, LoopState, default_identity, handle_conn, Round}
use goindustrial.EthernetIp.Server.Packets.{Packet, IsPacket, packets_encode, handle_conn_returns}
use goindustrial.EthernetIp.Server.Answers.Conversations.{
  Conversation, Written, handle_conn-answers,
}
use goindustrial.EthernetIp.Server.Sessions.{Untouched, handle_conn-foreign}
use goindustrial.EthernetIp.Session.{new_session, packet_header, register}
use goindustrial.EthernetIp.Session.Link.{link, session}
use goindustrial.EthernetIp.Session.Requests.{IsRequest, IsResponse, registered}
use goindustrial.EthernetIp.Session.Exchange.{send_all, dispatch_all, register-send_all}

-- An object that counts its requests
abbrev counter_router : MessageRouter ℕ
counter_router =
    register_object 4 (λ service path request_data n. (n + 1, ok (n ∷ []))) new_message_router

abbrev small_server : Server ℕ
small_server = record { router = counter_router; identity = default_identity }

abbrev connected : LoopState ℕ
connected = record {
  world = 7;
  next_session = 41;
  session_handle = 0;
  state_handle = 0;
  output = [];
}

abbrev count_request : MessageRouterRequest
count_request = record { service = 14; request_path = 32 ∷ 4 ∷ []; request_data = [] }

count_request-IsRequest : IsRequest count_request
unfolding request_encode
count_request-IsRequest = record {
  path = (refl, omega arith);
  some_bytes = λ p. cc;
  short = omega arith;
}

counted-IsResponse : (n : ℕ) → IsResponse (plain_response 14 0 (n ∷ []))
unfolding plain_response response_encode
counted-IsResponse n = record { size = refl; words = tt; short = omega arith }

register-send_all_example :
    (register (link small_server)
        >> send_all (link small_server) (count_request ∷ count_request ∷ []))
      (new_session connected)
    ≡ (
      session (record (registered connected) { world = 9 }) 42,
      ok (plain_response 14 0 (7 ∷ []) ∷ plain_response 14 0 (8 ∷ []) ∷ []),
    )
unfolding dispatch dispatch_all register_object
register-send_all_example =
    register-send_all small_server connected (count_request ∷ count_request ∷ [])
      (plain_response 14 0 (7 ∷ []) ∷ plain_response 14 0 (8 ∷ []) ∷ []) 9 (λ p. cc)
      (count_request-IsRequest, (count_request-IsRequest, tt))
      (counted-IsResponse 7, (counted-IsResponse 8, tt)) refl

-- A command on a session that was never registered, and a list of services
abbrev stray : List Packet
stray =
    record { header = packet_header 111 (1 ∷ 2 ∷ []) 5; bytes = 1 ∷ 2 ∷ [] }
    ∷ record { header = packet_header 4 [] 0; bytes = [] }
    ∷ []

stray-IsPacket :
    (command handle : ℕ) (bytes : List ℕ)
    → command ≤ 1000
    → handle ≤ 1000
    → length bytes ≤ 4096
    → IsPacket (record { header = packet_header command bytes handle; bytes = bytes })
stray-IsPacket command handle bytes a b h = record {
  header_fits = record {
    command_fits = omega arith;
    length_fits = omega arith;
    session_fits = omega arith;
    status_fits = omega arith;
    context_fits = refl;
    options_fits = omega arith;
  };
  counts = omega arith;
  short = omega arith;
}

handle_conn-answers_example :
    (answers : List Packet) × (r : Round ℕ) × (handle_conn 3 small_server connected
        (packets_encode stray)
      ≡ some r)
    × Conversation small_server stray connected answers r
    × Written small_server connected answers r
handle_conn-answers_example = handle_conn-answers small_server connected stray (
  stray-IsPacket 111 5 (1 ∷ 2 ∷ []) (omega arith) (omega arith) (omega arith),
  (stray-IsPacket 4 0 [] (omega arith) (omega arith) (omega arith), tt),
)

handle_conn-foreign_example :
    (r : Round ℕ) × (handle_conn 3 small_server connected (packets_encode stray) ≡ some r)
    × Untouched connected r
handle_conn-foreign_example =
    handle_conn-foreign small_server connected stray
      (
        stray-IsPacket 111 5 (1 ∷ 2 ∷ []) (omega arith) (omega arith) (omega arith),
        (stray-IsPacket 4 0 [] (omega arith) (omega arith) (omega arith), tt),
      )
      (((λ p. omega (arith, p)), inr refl), (((λ p. omega (arith, p)), inr refl), tt))

handle_conn_returns_example :
    (r : Round ℕ) × (handle_conn 30 small_server connected (replicate 29 4) ≡ some r)
handle_conn_returns_example =
    handle_conn_returns small_server 30 connected (replicate 29 4) (omega arith)

default_identity-IsIdentity : IsIdentity default_identity
default_identity-IsIdentity = record {
  type_right = refl;
  version_fits = omega arith;
  addr_counts = refl;
  vendor_fits = omega arith;
  device_fits = omega arith;
  product_fits = omega arith;
  revision_counts = refl;
  status_fits = omega arith;
  serial_fits = omega arith;
  name_short = omega arith;
}

decode_list_identity_response-encode_example :
    decode_list_identity_response (encode_list_identity_response (default_identity ∷ []))
    ≡ ok (map as_sent (default_identity ∷ []))
decode_list_identity_response-encode_example =
    decode_list_identity_response-encode (default_identity ∷ []) (omega arith)
      (default_identity-IsIdentity, tt)
