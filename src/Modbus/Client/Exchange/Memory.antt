-- ===== src/Modbus/Client/Exchange/Memory.antt =====
-- Writing to the default server over the in-memory store, and reading back.
use goindustrial.Base.{ℕ, ◌≡◌, refl, List, Bool, false, length, All, arith}
use goindustrial.Base.{ok}
use goindustrial.Base.Bytes.{IsU16}
use goindustrial.Modbus.Protocol.Generate.{InLimits, in_limits}
use goindustrial.Modbus.Store.{MemoryStore, memory_store, write_range, read_range}
use goindustrial.Modbus.Store as Store
use goindustrial.Modbus.Store.Ranges.{read_range-write_range}
use goindustrial.Modbus.Store.Laws.{memory_store-IsLawful}
use goindustrial.Modbus.Connection.{setup_default_handlers, Connection}
use goindustrial.Modbus.Client.{
  Client, read_coils, read_holding_registers, write_multiple_coils, write_multiple_registers,
}
use goindustrial.Modbus.Client.Exchange.{loopback}
use goindustrial.Modbus.Client.Exchange.Reads.{read_coils-loopback, read_holding_registers-loopback}
use goindustrial.Modbus.Client.Exchange.Writes.{
  write_multiple_coils-loopback, write_multiple_registers-loopback,
}

module _ (client : Client) (c : Connection MemoryStore) (address : ℕ) where
  -- Over the memory store, 1 to 123 registers of 16 bits that the client writes from a 16-bit
  -- address on are read back by the client as they were, also where the range passes address 65535.
  pub read_holding_registers-write_multiple_registers :
      (values : List ℕ)
      → IsU16 address
      → All IsU16 values
      → InLimits (length values) 123
      → let server = setup_default_handlers memory_store in
        let (c', r) = write_multiple_registers (loopback server) client address values c in
        (r ≡ ok tt)
        × ((read_holding_registers (loopback server) client address (length values) c').1
            ≡ ok values)
  read_holding_registers-write_multiple_registers values ha fits h =
      let written : MemoryStore = record c.store {
        holding_registers = write_range c.store.holding_registers address 0 values;
      } in
      let server = setup_default_handlers memory_store in
      let stored : memory_store.write_multiple_registers c.store address values ≡ (written, ok tt) =
        unfold Store.write_multiple_registers in ground arith in
      let (done, left) =
        write_multiple_registers-loopback memory_store memory_store-IsLawful client c written
          address values ha fits h stored in
      let c' = (write_multiple_registers (loopback server) client address values c).0 in
      let range = read_range-write_range 0 c.store.holding_registers address values (omega arith) in
      let found : memory_store.read_holding_registers c'.store address (length values) ≡ ok values =
        unfold Store.read_holding_registers in
        rw (left, in_limits (length values) 125 (omega arith), range) in
      let (read, _) =
        read_holding_registers-loopback memory_store memory_store-IsLawful client c' address
          (length values) values ha (omega arith) found refl fits in
      (done, read)

  -- Over the memory store, 1 to 1968 coils that the client writes from a 16-bit address on are read
  -- back by the client as they were.
  pub read_coils-write_multiple_coils :
      (values : List Bool)
      → IsU16 address
      → InLimits (length values) 1968
      → let server = setup_default_handlers memory_store in
        let (c', r) = write_multiple_coils (loopback server) client address values c in
        (r ≡ ok tt)
        × ((read_coils (loopback server) client address (length values) c').1 ≡ ok values)
  read_coils-write_multiple_coils values ha h =
      let written : MemoryStore = record c.store {
        coils = write_range c.store.coils address 0 values;
      } in
      let server = setup_default_handlers memory_store in
      let stored : memory_store.write_multiple_coils c.store address values ≡ (written, ok tt) =
        unfold Store.write_multiple_coils in ground arith in
      let (done, left) =
        write_multiple_coils-loopback memory_store memory_store-IsLawful client c written address
          values ha h stored in
      let c' = (write_multiple_coils (loopback server) client address values c).0 in
      let range = read_range-write_range false c.store.coils address values (omega arith) in
      let found : memory_store.read_coils c'.store address (length values) ≡ ok values =
        unfold Store.read_coils in rw (left, in_limits (length values) 2000 (omega arith), range) in
      let (read, _) =
        read_coils-loopback memory_store memory_store-IsLawful client c' address (length values)
          values ha (omega arith) found refl in
      (done, read)
