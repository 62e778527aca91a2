-- ===== src/EthernetIp/Eip/Commands.antt =====
-- protocol/ethernetip/eip/commands.go: the commands, the statuses of the encapsulation, and the data
-- of a registration; and the item types of cpf.go.
use goindustrial.Base.{ℕ, List, []}
use goindustrial.Base.Bytes.Reader.{le16}

abbrev pub command_list_services : ℕ
command_list_services = 4

abbrev pub command_list_identity : ℕ
command_list_identity = 99

abbrev pub command_register_session : ℕ
command_register_session = 101

abbrev pub command_unregister_session : ℕ
command_unregister_session = 102

abbrev pub command_send_rr_data : ℕ
command_send_rr_data = 111

abbrev pub command_send_unit_data : ℕ
command_send_unit_data = 112

abbrev pub eip_status_success : ℕ
eip_status_success = 0

abbrev pub eip_status_invalid_command : ℕ
eip_status_invalid_command = 1

abbrev pub eip_status_invalid_session_handle : ℕ
eip_status_invalid_session_handle = 100

abbrev pub item_null_address : ℕ
item_null_address = 0

abbrev pub item_list_identity : ℕ
item_list_identity = 12

abbrev pub item_connected_address : ℕ
item_connected_address = 161

abbrev pub item_connected_data : ℕ
item_connected_data = 177

abbrev pub item_unconnected_message : ℕ
item_unconnected_message = 178

abbrev pub item_list_services : ℕ
item_list_services = 256

-- `NewRegisterSessionData` and its `Encode`: protocol version 1, no options
unfoldable pub register_session_data : List ℕ
register_session_data = le16 1 (le16 0 [])
