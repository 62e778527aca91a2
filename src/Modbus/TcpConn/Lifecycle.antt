-- ===== src/Modbus/TcpConn/Lifecycle.antt =====
-- conn.go: sockets and generations over any sequence of connects and disconnects.
use goindustrial.Base.{
  ℕ, ◌==◌, ◌≡◌, ◌⊎◌, inl, inr, refl, ap, List, [], ◌∷◌, true, false, Bool-cases, Option, none, some,
  not, if◌then◌else◌,
}
use goindustrial.Base.{Error}
use goindustrial.Modbus.Transactions.{TransactionPool, new_transaction_pool, unsafe_reset}
use goindustrial.Modbus.TcpConn.{
  TcpConn, new_tcp_conn, renewed_pool, connect, unsafe_teardown, disconnect, set_disconnected,
}

-- What gets the mutex: a dial that gives a socket or an error, a caller that disconnects, or a loop
-- that reports the end of its generation.
pub data Action : Type 0 where
  dialled : ℕ → Action
  refused : Error → Action
  hung_up : Action
  loop_ended : ℕ → Action

-- A connection, with the sockets that were opened and those that were closed, the last one first.
pub record Sockets : Type 0 where
  pub tcp : TcpConn
  pub opened : List ℕ
  pub closed : List ℕ

-- A dial is made only where the connection is not connected.
with_opened : ℕ → Sockets → Sockets
with_opened socket s = record s {
  tcp = (connect (inl socket) s.tcp).0;
  opened = if s.tcp.connected then s.opened else socket ∷ s.opened;
}

with_closed : Sockets → TcpConn × Option ℕ → Sockets
with_closed s (tcp, none) = record s { tcp = tcp }
with_closed s (tcp, some socket) = record s { tcp = tcp; closed = socket ∷ s.closed }

pub step : Action → Sockets → Sockets
unfolding with_opened with_closed
step (dialled socket) s = with_opened socket s
step (refused e) s = record s { tcp = (connect (inr e) s.tcp).0 }
step hung_up s = with_closed s (disconnect s.tcp)
step (loop_ended gen) s = with_closed s (set_disconnected gen s.tcp)

pub run : List Action → Sockets → Sockets
run [] s = s
run (a ∷ actions) s = run actions (step a s)

-- A connected client has one open socket, its own, and a pool that takes requests; another has none.
pub data IsConsistent (s : Sockets) : Type 0 where
  up :
      (socket : ℕ)
      → s.tcp.connected ≡ true
      → s.tcp.torn_down ≡ false
      → s.tcp.conn ≡ some socket
      → s.tcp.pool.done ≡ false
      → s.opened ≡ socket ∷ s.closed
      → IsConsistent s
  down :
      s.tcp.connected ≡ false
      → (s.tcp.torn_down ≡ true) ⊎ (s.tcp.conn ≡ none)
      → s.opened ≡ s.closed
      → IsConsistent s

renewed_pool_open : (pool : TransactionPool) → (renewed_pool pool).done ≡ false
unfolding renewed_pool new_transaction_pool unsafe_reset
renewed_pool_open pool = elim (Bool-cases pool.done) [ inl e ↦ simp e | inr e ↦ simp (e) ]

dialled-IsConsistent :
    (socket : ℕ) (s : Sockets) → IsConsistent s → IsConsistent (with_opened socket s)
unfolding with_opened connect
dialled-IsConsistent socket s (up own a b c d e) = simp a (up own a b c d e)
dialled-IsConsistent socket s (down a b c) =
    simp a (up socket refl refl refl (renewed_pool_open s.tcp.pool) (ap (λ l. socket ∷ l) c))

refused-IsConsistent :
    (e : Error) (s : Sockets)
    → IsConsistent s
    → IsConsistent (record s { tcp = (connect (inr e) s.tcp).0 })
unfolding connect
refused-IsConsistent e s (up own a b c d f) = simp a (up own a b c d f)
refused-IsConsistent e s (down a b c) = simp a (down refl b c)

torn-IsConsistent :
    (s : Sockets)
    → IsConsistent s
    → IsConsistent (with_closed s (unsafe_teardown (record s.tcp { connected = false })))
unfolding with_closed unsafe_teardown
torn-IsConsistent s (up own a b c d e) = simp (b, c) (down refl (inl refl) e)
torn-IsConsistent s (down a (inl b) c) = simp b (down refl (inl refl) c)
torn-IsConsistent s (down a (inr b) c) = elim (Bool-cases s.tcp.torn_down) [
  | inl gone ↦ simp gone (down refl (inl refl) c)
  | inr kept ↦ simp (kept, b) (down refl (inl refl) c)
]

pub step-IsConsistent : (a : Action) (s : Sockets) → IsConsistent s → IsConsistent (step a s)
unfolding step
step-IsConsistent (dialled socket) s h = dialled-IsConsistent socket s h
step-IsConsistent (refused e) s h = refused-IsConsistent e s h
step-IsConsistent hung_up s h = unfold disconnect in torn-IsConsistent s h
step-IsConsistent (loop_ended gen) s h = elim (Bool-cases (not (gen == s.tcp.gen))) [
  | inl stale ↦ unfold set_disconnected with_closed in simp stale h
  | inr live ↦ unfold set_disconnected in simp live (torn-IsConsistent s h)
]

run_from : (actions : List Action) (s : Sockets) → IsConsistent s → IsConsistent (run actions s)
unfolding run
run_from [] s h = h
run_from (a ∷ actions) s h = run_from actions (step a s) (step-IsConsistent a s h)

-- After any sequence of connects, failed dials, disconnects and ends of loops of any generation, a
-- connected client has one socket that was opened and not closed, its own, with a pool that is
-- open; and without a connection the sockets that were opened were closed, each once and in order.
pub run-IsConsistent :
    (actions : List Action)
    → IsConsistent (run actions (record { tcp = new_tcp_conn; opened = []; closed = [] }))
run-IsConsistent actions = run_from actions _ (unfold new_tcp_conn in down refl (inr refl) refl)
