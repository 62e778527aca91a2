-- ===== src/EthernetIp/Runs/Controllers.antt =====
-- A counter, and a client of a controller that answers typed reads and writes, on small inputs.
use goindustrial.Base.{ℕ, ◌≡◌, refl, List, [], ◌∷◌, arith}
use goindustrial.Base.{ok}
use goindustrial.EthernetIp.Pccc.{pos, negsuc, within, letter_of}
use goindustrial.EthernetIp.Pccc.Frames.{Command, typed_read, typed_write, Outcome, success}
use goindustrial.EthernetIp.Pccc.Client.{
  Address, PcccClient, tns_loop, next_counter, raw_read, write_bytes,
}
use goindustrial.EthernetIp.Pccc.Client.Device.{
  IsPlace, serve, data_of, done_of, raw_read-serve, write_bytes-serve,
}

-- N7:3
abbrev integers : Address
integers = record {
  file_type = 137;
  file_number = pos 7;
  element = pos 3;
  sub_element = pos 0;
  bit_num = negsuc 0;
}

-- One cell that every command reads or writes
one_cell : Command → List ℕ → List ℕ × Outcome
one_cell (typed_read _ _ _ _ _ _) cell = (cell, success cell)
one_cell (typed_write _ _ _ _ _ bytes) cell = (bytes, success [])

abbrev panel : PcccClient (List ℕ)
panel = record { tns = 65535; world = 5 ∷ 6 ∷ [] }

integers-IsPlace : IsPlace integers
unfolding letter_of within
integers-IsPlace = ((λ p. cc), refl, refl, refl)

raw_read-serve_example :
    raw_read (serve one_cell) integers (pos 2) panel
    ≡ (record { tns = 65537; world = 5 ∷ 6 ∷ [] }, ok (5 ∷ 6 ∷ []))
unfolding next_counter tns_loop data_of within one_cell
raw_read-serve_example =
    raw_read-serve one_cell integers (pos 2) panel (5 ∷ 6 ∷ []) (success (5 ∷ 6 ∷ []))
      integers-IsPlace refl refl tt

write_bytes-serve_example :
    write_bytes (serve one_cell) integers (9 ∷ 0 ∷ []) panel
    ≡ (record { tns = 65537; world = 9 ∷ 0 ∷ [] }, ok tt)
unfolding next_counter tns_loop done_of one_cell
write_bytes-serve_example =
    write_bytes-serve one_cell integers (9 ∷ 0 ∷ []) panel (9 ∷ 0 ∷ []) (success [])
      integers-IsPlace (omega arith) (omega arith) refl tt
