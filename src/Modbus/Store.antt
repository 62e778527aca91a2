-- ===== src/Modbus/Store.antt =====
-- protocol/modbus/datastore.go: the `DataStore` interface and its in-memory implementation. A method
-- holds the store's mutex from start to end, so it is one step on the state.
pub mod Ranges
pub mod Laws
use goindustrial.Base.{
  ℕ, zero, suc, ◌+◌, ◌≡◌, List, [], ◌∷◌, Bool, true, false, not, ◌||◌, ltb, ◌==◌, if◌then◌else◌,
  length, Option, none, some,
}
use goindustrial.Base.{Go, Error, ok, err, panic, require, ◌>>=◌, ◌>>◌, invalid_quantity}
use goindustrial.Base.Bytes.{u16}
use goindustrial.Modbus.Types.{
  max_coil_count, max_register_count, max_write_coil_count, max_write_register_count,
}

-- The interface, over the state of a store. A method that writes returns the state beside its
-- error, since an implementation may have written before it failed. Methods that read leave the
-- state as it is.
pub record DataStore (S : Type 0) : Type 0 where
  pub read_coils : S → ℕ → ℕ → Go (List Bool)
  pub read_discrete_inputs : S → ℕ → ℕ → Go (List Bool)
  pub read_holding_registers : S → ℕ → ℕ → Go (List ℕ)
  pub read_input_registers : S → ℕ → ℕ → Go (List ℕ)
  pub write_single_coil : S → ℕ → Bool → S × Go (Unit {0})
  pub write_single_register : S → ℕ → ℕ → S × Go (Unit {0})
  pub write_multiple_coils : S → ℕ → List Bool → S × Go (Unit {0})
  pub write_multiple_registers : S → ℕ → List ℕ → S × Go (Unit {0})

-- A Go map: the address is present, with its value, or not.
abbrev pub AddressMap {ℓ} : Type ℓ → Type ℓ
AddressMap A = ℕ → Option A

pub record MemoryStore : Type 0 where
  pub coils : AddressMap Bool
  pub discrete_inputs : AddressMap Bool
  pub holding_registers : AddressMap ℕ
  pub input_registers : AddressMap ℕ

abbrev pub new_memory_store : MemoryStore
new_memory_store = record {
  coils = λ _. none;
  discrete_inputs = λ _. none;
  holding_registers = λ _. none;
  input_registers = λ _. none;
}

module _ {ℓ} {A : Type ℓ} where
  -- `m[key] = value`
  unfoldable pub insert : AddressMap A → ℕ → A → AddressMap A
  insert m key value j = if j == key then some value else m j

  unfoldable pub value_or : A → Option A → A
  value_or zero_value none = zero_value
  value_or zero_value (some value) = value

  -- The loop of the read methods, from round i on, with the rounds left. `address + Address(i)`
  -- wraps at 65536, and a missing key leaves the zero value.
  unfoldable pub read_range : A → AddressMap A → ℕ → ℕ → ℕ → List A
  unfolding value_or
  read_range zero_value m address i zero = []
  read_range zero_value m address i (suc n) =
      value_or zero_value (m (u16 (address + i))) ∷ read_range zero_value m address (i + 1) n

  -- The loop of the methods that write several values.
  unfoldable pub write_range : AddressMap A → ℕ → ℕ → List A → AddressMap A
  unfolding insert
  write_range m address i [] = m
  write_range m address i (v ∷ values) =
      write_range (insert m (u16 (address + i)) v) address (i + 1) values

unfoldable pub read_coils : MemoryStore → ℕ → ℕ → Go (List Bool)
unfolding read_range
read_coils s address quantity = do
  require (not (quantity == 0 || ltb max_coil_count quantity)) invalid_quantity
  ok (read_range false s.coils address 0 quantity)

unfoldable pub read_discrete_inputs : MemoryStore → ℕ → ℕ → Go (List Bool)
unfolding read_range
read_discrete_inputs s address quantity = do
  require (not (quantity == 0 || ltb max_coil_count quantity)) invalid_quantity
  ok (read_range false s.discrete_inputs address 0 quantity)

unfoldable pub read_holding_registers : MemoryStore → ℕ → ℕ → Go (List ℕ)
unfolding read_range
read_holding_registers s address quantity = do
  require (not (quantity == 0 || ltb max_register_count quantity)) invalid_quantity
  ok (read_range 0 s.holding_registers address 0 quantity)

unfoldable pub read_input_registers : MemoryStore → ℕ → ℕ → Go (List ℕ)
unfolding read_range
read_input_registers s address quantity = do
  require (not (quantity == 0 || ltb max_register_count quantity)) invalid_quantity
  ok (read_range 0 s.input_registers address 0 quantity)

unfoldable pub write_single_coil : MemoryStore → ℕ → Bool → MemoryStore × Go (Unit {0})
write_single_coil s address value = (record s { coils = insert s.coils address value }, ok tt)

unfoldable pub write_single_register : MemoryStore → ℕ → ℕ → MemoryStore × Go (Unit {0})
write_single_register s address value =
    (record s { holding_registers = insert s.holding_registers address value }, ok tt)

unfoldable pub write_multiple_coils : MemoryStore → ℕ → List Bool → MemoryStore × Go (Unit {0})
write_multiple_coils s address values =
    if length values == 0 || ltb max_write_coil_count (length values)
    then (s, err invalid_quantity)
    else (record s { coils = write_range s.coils address 0 values }, ok tt)

unfoldable pub write_multiple_registers : MemoryStore → ℕ → List ℕ → MemoryStore × Go (Unit {0})
write_multiple_registers s address values =
    if length values == 0 || ltb max_write_register_count (length values)
    then (s, err invalid_quantity)
    else (record s { holding_registers = write_range s.holding_registers address 0 values }, ok tt)

-- `GetCoil`, `SetCoil` and their six fellows
pub get_coil : MemoryStore → ℕ → Option Bool
get_coil s address = s.coils address

pub set_coil : MemoryStore → ℕ → Bool → MemoryStore
set_coil s address value = record s { coils = insert s.coils address value }

pub get_discrete_input : MemoryStore → ℕ → Option Bool
get_discrete_input s address = s.discrete_inputs address

pub set_discrete_input : MemoryStore → ℕ → Bool → MemoryStore
set_discrete_input s address value = record s {
  discrete_inputs = insert s.discrete_inputs address value;
}

pub get_holding_register : MemoryStore → ℕ → Option ℕ
get_holding_register s address = s.holding_registers address

pub set_holding_register : MemoryStore → ℕ → ℕ → MemoryStore
set_holding_register s address value = record s {
  holding_registers = insert s.holding_registers address value;
}

pub get_input_register : MemoryStore → ℕ → Option ℕ
get_input_register s address = s.input_registers address

pub set_input_register : MemoryStore → ℕ → ℕ → MemoryStore
set_input_register s address value = record s {
  input_registers = insert s.input_registers address value;
}

abbrev pub memory_store : DataStore MemoryStore
memory_store = record {
  read_coils = read_coils;
  read_discrete_inputs = read_discrete_inputs;
  read_holding_registers = read_holding_registers;
  read_input_registers = read_input_registers;
  write_single_coil = write_single_coil;
  write_single_register = write_single_register;
  write_multiple_coils = write_multiple_coils;
  write_multiple_registers = write_multiple_registers;
}
