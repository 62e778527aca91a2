-- ===== src/EthernetIp/Pccc/Client.antt =====
-- pccc/client.go: the transaction numbers, and the typed reads and writes of one address. The
-- executor, the `ethernetip.Client` behind the client, is a parameter over a state of its own.
pub mod Device
use goindustrial.Base.{
  ℕ, zero, suc, ◌+◌, ◌%◌, ◌==◌, if◌then◌else◌, List, Option, none, some, Bool, true, false,
}
use goindustrial.Base.{Go, Error, ok, err, panic, require, pccc_read_size}
use goindustrial.Base.Stateful.{Exec, lift, ◌>>=◌, ◌>>◌}
use goindustrial.EthernetIp.Pccc.{
  ℤ, within, encode_typed_read, encode_typed_write, Reply, decode_reply,
}

pub record Address : Type 0 where
  pub file_type : ℕ
  pub file_number : ℤ
  pub element : ℤ
  pub sub_element : ℤ
  pub bit_num : ℤ

-- The counter of transactions, and what is behind the executor
pub record PcccClient (W : Type 0) : Type 0 where
  pub tns : ℕ
  pub world : W

-- The loop of `nextTNS` on fuel: the counter, a uint32, when it ends
unfoldable pub tns_loop : ℕ → ℕ → ℕ
tns_loop zero counter = counter
tns_loop (suc fuel) counter =
    let next = (counter + 1) % 4294967296 in
    let later = tns_loop fuel next in if next % 65536 == 0 then later else next

-- Two rounds are enough.
unfoldable pub next_counter : ℕ → ℕ
unfolding tns_loop
next_counter counter = tns_loop 2 counter

module _ {W : Type 0} where
  -- `NewClient` without options
  unfoldable pub new_client : W → PcccClient W
  new_client w = record { tns = 1; world = w }

  unfoldable pub next_tns : Exec (PcccClient W) ℕ
  unfolding next_counter
  next_tns c =
      let counter = next_counter c.tns in (record c { tns = counter }, ok (counter % 65536))

  -- `c.exec.ExecutePCCC(ctx, cmd)`
  unfoldable pub run_executor : Exec W (List ℕ) → Exec (PcccClient W) (List ℕ)
  run_executor run c = let (w, result) = run c.world in (record c { world = w }, result)

reply_data : Reply × Option Error → Go (List ℕ)
reply_data (r, none) = ok r.bytes
reply_data (r, some e) = err e

-- `reply, err := DecodeReply(rawReply)`, and the data where there is no error
unfoldable pub decoded_data : List ℕ → Go (List ℕ)
unfolding reply_data decode_reply
decoded_data raw = reply_data (decode_reply raw)

module _ {W : Type 0} (execute_pccc : List ℕ → Exec W (List ℕ)) where
  unfoldable pub raw_read : Address → ℤ → Exec (PcccClient W) (List ℕ)
  unfolding within next_tns encode_typed_read run_executor decoded_data
  raw_read a byte_size =
      lift (require (within 1 240 byte_size) pccc_read_size)
      >> (next_tns >>= λ tns.
          lift (encode_typed_read tns byte_size a.file_number a.file_type a.element a.sub_element)
          >>= λ cmd. run_executor (execute_pccc cmd) >>= λ raw_reply. lift (decoded_data raw_reply))

  -- The data of the reply are left aside.
  unfoldable pub write_bytes : Address → List ℕ → Exec (PcccClient W) (Unit {0})
  unfolding next_tns encode_typed_write run_executor decoded_data
  write_bytes a bytes = next_tns >>= λ tns.
      lift (encode_typed_write tns a.file_number a.file_type a.element a.sub_element bytes)
      >>= λ cmd. run_executor (execute_pccc cmd) >>= λ raw_reply.
          lift (decoded_data raw_reply) >>= λ _. lift (ok tt)
