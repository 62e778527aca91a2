-- ===== src/Modbus/Types.antt =====
-- protocol/modbus/types.go: codes and limits. The integer types (`Address`, `Quantity`, …) are ℕ,
-- with their ranges stated where a theorem needs them.
use goindustrial.Base.{ℕ, Bool, bit_and, ◌==◌, not}

abbrev pub func_read_coils : ℕ
func_read_coils = 0x01

abbrev pub func_read_discrete_inputs : ℕ
func_read_discrete_inputs = 0x02

abbrev pub func_read_holding_registers : ℕ
func_read_holding_registers = 0x03

abbrev pub func_read_input_registers : ℕ
func_read_input_registers = 0x04

abbrev pub func_write_single_coil : ℕ
func_write_single_coil = 0x05

abbrev pub func_write_single_register : ℕ
func_write_single_register = 0x06

abbrev pub func_read_exception_status : ℕ
func_read_exception_status = 0x07

abbrev pub func_write_multiple_coils : ℕ
func_write_multiple_coils = 0x0F

abbrev pub func_write_multiple_registers : ℕ
func_write_multiple_registers = 0x10

abbrev pub func_read_write_multiple_registers : ℕ
func_read_write_multiple_registers = 0x17

abbrev pub func_read_device_identification : ℕ
func_read_device_identification = 0x2B

abbrev pub exception_function_code_not_supported : ℕ
exception_function_code_not_supported = 0x01

abbrev pub exception_invalid_data_value : ℕ
exception_invalid_data_value = 0x03

abbrev pub exception_server_device_failure : ℕ
exception_server_device_failure = 0x04

abbrev pub mei_read_device_id : ℕ
mei_read_device_id = 0x0E

abbrev pub read_device_id_basic_stream : ℕ
read_device_id_basic_stream = 0x01

abbrev pub read_device_id_regular_stream : ℕ
read_device_id_regular_stream = 0x02

abbrev pub read_device_id_extended_stream : ℕ
read_device_id_extended_stream = 0x03

abbrev pub read_device_id_specific_object : ℕ
read_device_id_specific_object = 0x04

abbrev pub conformity_level_basic : ℕ
conformity_level_basic = 0x01

abbrev pub more_follows_no : ℕ
more_follows_no = 0x00

abbrev pub tcp_header_length : ℕ
tcp_header_length = 7

abbrev pub max_pdu_length : ℕ
max_pdu_length = 253

abbrev pub max_coil_count : ℕ
max_coil_count = 2000

abbrev pub max_write_coil_count : ℕ
max_write_coil_count = 1968

abbrev pub max_register_count : ℕ
max_register_count = 125

abbrev pub max_write_register_count : ℕ
max_write_register_count = 123

abbrev pub max_read_write_read_count : ℕ
max_read_write_read_count = 125

abbrev pub max_read_write_write_count : ℕ
max_read_write_write_count = 121

abbrev pub coil_on_u16 : ℕ
coil_on_u16 = 0xFF00

abbrev pub coil_off_u16 : ℕ
coil_off_u16 = 0x0000

abbrev pub tcp_protocol_identifier : ℕ
tcp_protocol_identifier = 0

abbrev pub exception_bit : ℕ
exception_bit = 0x80

-- `IsException`, which `IsFunctionException` calls
unfoldable pub is_exception : ℕ → Bool
is_exception function_code = not (bit_and function_code exception_bit == 0)

-- `GetOriginalFunctionCode`: on a byte `^ExceptionBit` is 0x7F
pub get_original_function_code : ℕ → ℕ
get_original_function_code exception_code = bit_and exception_code 0x7F
