-- ===== src/Base/Outcome.antt =====
-- What a Go call gives back: its value, an error, or a run-time panic (an index out of range).
use mathlib.Core.Path.{◌≡◌, refl}
use mathlib.Core.Logic.{◌≢◌}
use mathlib.Core.Bool.{Bool, true, false}
use mathlib.Core.List.{List}
use mathlib.Core.Option.{Option, none, some}
use Prim.Native.Nat.{ℕ}

-- The errors that the modelled code makes or passes on. `io_eof` and `io_unexpected_eof` are those
-- of the standard library's readers.
pub data Error : Type 0 where
  invalid_quantity : Error
  invalid_request_length : Error
  invalid_response_length : Error
  invalid_value : Error
  invalid_response_format : Error
  empty_response : Error
  transaction_timeout : Error
  transport_closing : Error
  -- `fmt.Errorf("invalid coil value: …")`, with the address that is returned beside it
  invalid_coil_value : ℕ → ℕ → Error
  -- `fmt.Errorf("transport is closed")` and `fmt.Errorf("transport connection was reset")`
  transport_closed : Error
  transport_was_reset : Error
  -- `fmt.Errorf("reconnecting transport dial: %w", err)` and `"direct transport connect: %w"`
  dial_failed : Error → Error
  connect_failed : Error → Error
  pool_closed : Error
  pool_full : Error
  already_connected : Error
  not_connected : Error
  -- `fmt.Errorf("failed to create transaction: %w", err)`
  transaction_failed : Error → Error
  invalid_protocol_header : Error
  -- `fmt.Errorf("read body error: %w", err)`
  read_body_failed : Error → Error
  -- `fmt.Errorf("cpf: item count %d requires at least …")`: the count, and the bytes that are left
  cpf_item_count : ℕ → ℕ → Error
  -- the errors of session.go, and of conn.go below it
  session_status : ℕ → Error
  session_data_too_short : Error
  session_cpf_failed : Error → Error
  session_missing_item : Error
  read_header_failed : Error → Error
  read_data_failed : Error → Error
  -- `cip.Error`: the general status and the extended status
  cip_error : ℕ → List ℕ → Error
  -- the errors of `ParseTagPath`, without their texts
  empty_tag_path : Error
  unmatched_open_bracket : Error
  unmatched_close_bracket : Error
  bracket_not_closed : Error
  empty_index : Error
  empty_index_value : Error
  invalid_index : Error
  empty_segment : Error
  invalid_numeric_member : Error
  -- `insufficient data for Timer: …` and the same for Counter, with the length
  insufficient_timer : ℕ → Error
  insufficient_counter : ℕ → Error
  -- the errors of the package pccc, without their texts, and its `*Error`: STS and EXT STS
  pccc_unknown_file_type : Error
  pccc_file_number : Error
  pccc_element : Error
  pccc_sub_element : Error
  pccc_byte_size : Error
  pccc_write_empty : Error
  pccc_read_size : Error
  pccc_write_too_large : Error
  pccc_reply_too_short : Error
  pccc_no_reply_bit : Error
  pccc_missing_ext_sts : Error
  pccc_error : ℕ → ℕ → Error
  io_eof : Error
  io_unexpected_eof : Error
  -- a `*ModbusError`: function code and exception code
  modbus_error : ℕ → ℕ → Error
  -- `fmt.Errorf("modbus: all %d attempts failed: %w", …)`, around the last attempt's error
  attempts_failed : ℕ → Error → Error
  -- the `nil` of `lastErr` before the first attempt
  nil_error : Error
  -- any other error, made by code outside the model
  other_error : ℕ → Error

pub data Go {ℓ} (A : Type ℓ) : Type ℓ where
  ok : A → Go A
  err : Error → Go A
  panic : Go A

infixl 5 ◌>>=◌ ◌>>◌
abbrev pub ◌>>=◌ {ℓ κ} : {A : Type ℓ} {B : Type κ} → Go A → (A → Go B) → Go B
panic >>= rest = panic
err x >>= rest = err x
ok value >>= rest = rest value

abbrev pub ◌>>◌ {ℓ} : {A : Type ℓ} → Go (Unit {0}) → Go A → Go A
first >> second = first >>= λ _. second

-- `if !b { return e }`
abbrev pub require : Bool → Error → Go (Unit {0})
require false x = err x
require true x = ok tt

-- An index expression: out of range it panics.
abbrev pub index_or_panic {ℓ} : {A : Type ℓ} → Option A → Go A
index_or_panic none = panic
index_or_panic (some a) = ok a

-- A chain that succeeds has a first part that succeeds.
pub >>=-eq-ok {ℓ κ} :
    {A : Type ℓ} {C : Type κ} (r : Go A) (rest : A → Go C) {result : C}
    → (r >>= rest) ≡ ok result
    → (value : A) × (r ≡ ok value) × (rest value ≡ ok result)
>>=-eq-ok panic rest h = cc
>>=-eq-ok (err x) rest h = cc
>>=-eq-ok (ok value) rest h = (value, refl, h)

pub >>=-ne-panic {ℓ κ} :
    {A : Type ℓ} {B : Type κ} (m : Go A) (f : A → Go B)
    → m ≢ panic
    → ((a : A) → m ≡ ok a → f a ≢ panic)
    → (m >>= f) ≢ panic
>>=-ne-panic (ok a) f h k = k a refl
>>=-ne-panic (err e) f h k = λ p. cc
>>=-ne-panic panic f h k = absurd (h refl)

pub require-ne-panic : (b : Bool) (e : Error) → require b e ≢ panic
require-ne-panic true e = λ p. cc
require-ne-panic false e = λ p. cc
