-- ===== src/Modbus/Store/Laws.antt =====
-- What the server relies on in a data store, and that the memory store provides it.
use goindustrial.Base.{ℕ, ◌≡◌, ◌⊎◌, inl, inr, refl, List, Bool, true, false, if◌then◌else◌, length}
use goindustrial.Base.{Go, Error, ok, err, require, ◌>>◌, invalid_quantity}
use goindustrial.Modbus.Store.{
  DataStore, memory_store, read_coils, read_discrete_inputs, read_holding_registers,
  read_input_registers, write_single_coil, write_single_register, write_multiple_coils,
  write_multiple_registers,
}
use goindustrial.Modbus.Store.Ranges.{length-read_range}

-- A read gives as many values as were asked for, or an error.
abbrev pub Returns : {A : Type 0} → ℕ → Go (List A) → Type 0
Returns {A} quantity r =
    ((values : List A) × (r ≡ ok values) × (length values ≡ quantity)) ⊎ ((e : Error) × (r ≡ err e))

-- A write is done or fails.
abbrev pub Completes : Go (Unit {0}) → Type 0
Completes r = (r ≡ ok tt) ⊎ ((e : Error) × (r ≡ err e))

pub record IsLawful {S : Type 0} (store : DataStore S) : Type 0 where
  pub coils_return : (s : S) (a q : ℕ) → Returns q (store.read_coils s a q)
  pub discrete_inputs_return : (s : S) (a q : ℕ) → Returns q (store.read_discrete_inputs s a q)
  pub holding_registers_return : (s : S) (a q : ℕ) → Returns q (store.read_holding_registers s a q)
  pub input_registers_return : (s : S) (a q : ℕ) → Returns q (store.read_input_registers s a q)
  pub single_coil_completes :
      (s : S) (a : ℕ) (v : Bool) → Completes (store.write_single_coil s a v).1
  pub single_register_completes :
      (s : S) (a : ℕ) (v : ℕ) → Completes (store.write_single_register s a v).1
  pub multiple_coils_complete :
      (s : S) (a : ℕ) (vs : List Bool) → Completes (store.write_multiple_coils s a vs).1
  pub multiple_registers_complete :
      (s : S) (a : ℕ) (vs : List ℕ) → Completes (store.write_multiple_registers s a vs).1

guarded :
    {A : Type 0} (b : Bool) (values : List A) (quantity : ℕ)
    → length values ≡ quantity
    → Returns quantity (require b invalid_quantity >> ok values)
guarded true values quantity e = inl (values, refl, e)
guarded false values quantity e = inr (invalid_quantity, refl)

rejected_or_done :
    {S : Type 0} (b : Bool) (s s' : S)
    → Completes (if◌then◌else◌ {A = S × Go (Unit {0})} b (s, err invalid_quantity) (s', ok tt)).1
rejected_or_done true s s' = inr (invalid_quantity, refl)
rejected_or_done false s s' = inl refl

-- The memory store keeps the promises of the interface: a read returns as many values as were asked
-- for or an error, a write completes or returns an error, and nothing panics.
pub memory_store-IsLawful : IsLawful memory_store
unfolding read_coils read_discrete_inputs read_holding_registers read_input_registers
    write_single_coil write_single_register write_multiple_coils write_multiple_registers
memory_store-IsLawful = record {
  coils_return = λ s a q. guarded _ _ q (length-read_range false s.coils a 0 q);
  discrete_inputs_return = λ s a q. guarded _ _ q (length-read_range false s.discrete_inputs a 0 q);
  holding_registers_return = λ s a q. guarded _ _ q (length-read_range 0 s.holding_registers a 0 q);
  input_registers_return = λ s a q. guarded _ _ q (length-read_range 0 s.input_registers a 0 q);
  single_coil_completes = λ s a v. inl refl;
  single_register_completes = λ s a v. inl refl;
  multiple_coils_complete = λ s a vs. rejected_or_done _ _ _;
  multiple_registers_complete = λ s a vs. rejected_or_done _ _ _;
}
