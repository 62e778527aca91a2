-- ===== src/Transport/Runs.antt =====
-- Transports over a small network: how often it refuses from now on, the last connection's number,
-- how often the callbacks ran, and the open connections.
use goindustrial.Base.{
  ℕ, zero, suc, ◌+◌, ◌==◌, ==_iff, ◌≡◌, refl, sym, ap, ◌∙◌, List, [], ◌∷◌, true, false, Option,
  none, arith,
}
use goindustrial.Base.{Error, ok, err, panic, other_error, transport_closed}
use goindustrial.Base.Stateful.{Exec}
use goindustrial.Modbus.Types.{func_read_coils, is_exception}
use goindustrial.Modbus.Frame.{Request, Response, new_response}
use goindustrial.Modbus.Client.{Client, send}
use goindustrial.Modbus.Client.Reconnecting.{over_transport, send-Outage}
use goindustrial.Transport.{
  Comparable, Dialer, Config, apply_options, fire_on_connect, fire_on_disconnect, call_each,
  call_each_with,
}
use goindustrial.Transport.Callbacks.{
  connect_hook, disconnect_hook, options_of, apply_options-fires,
}
use goindustrial.Transport.Tracking.{Tracks}
use goindustrial.Transport.Reconnecting.{
  ReconnectingTransport, new_reconnecting_transport, get_conn, peek, close,
}
use goindustrial.Transport.Reconnecting.Owner.{
  slow_path_action, reset_action, close_action, run, Owns, run-Owns,
}
use goindustrial.Transport.Reconnecting.Final.{close_for_good}
use goindustrial.Transport.Reconnecting.Retry.{Outage, over, outage, after_calls, get_conn-Outage}
use goindustrial.Transport.Direct.{DirectTransport, new_direct_transport}
use goindustrial.Transport.Direct.Once as Once

abbrev Network : Type 0
Network = ℕ × ℕ × ℕ × List ℕ

abbrev connect : Exec Network ℕ
connect (zero, last, fired, conns) = ((zero, suc last, fired, suc last ∷ conns), ok (suc last))
connect (suc refusals, last, fired, conns) = ((refusals, last, fired, conns), err (other_error 111))

abbrev without_newest : List ℕ → List ℕ
without_newest [] = []
without_newest (c ∷ cs) = cs

abbrev shut : ℕ → Network → Network × Option Error
shut c (refusals, last, fired, conns) = ((refusals, last, fired, without_newest conns), none)

abbrev fire : Network → Network
fire (refusals, last, fired, conns) = (refusals, last, fired + 1, conns)

abbrev numbers : Comparable ℕ
numbers = record { zero_value = 0; same = ◌==◌; same_iff = ==_iff }

abbrev network : Dialer Network ℕ
network = record { connect = connect; shut = shut }

abbrev hooks : Config Network
hooks = record { on_connect = fire ∷ []; on_disconnect = (λ e w. fire w) ∷ [] }

abbrev conns_of : Network → List ℕ
conns_of w = w.3

hooks-Tracks : Tracks numbers network hooks conns_of
hooks-Tracks = record {
  connect_adds = λ w w' c e. adds w w' c e;
  connect_fails = λ w w' x e. fails w w' x e;
  connect_panics = λ w w' e. panics w w' e;
  shut_removes = λ w c cs e. rw e refl;
  on_connect_keeps = (λ w. refl, tt);
  on_disconnect_keeps = (λ e w. refl, tt);
}
  where
    adds :
        (w w' : Network) (c : ℕ)
        → connect w ≡ (w', ok c)
        → (conns_of w' ≡ c ∷ conns_of w) × ((c == 0) ≡ false)
    adds (zero, last, fired, conns) w' c e =
        let c_is : suc last ≡ c = ground arith in
        (ap (λ t. t.0.3) (sym e) ∙ ap (λ n. n ∷ conns) c_is, ground arith)
    adds (suc k, last, fired, conns) w' c e = cc

    fails : (w w' : Network) (x : Error) → connect w ≡ (w', err x) → conns_of w' ≡ conns_of w
    fails (zero, last, fired, conns) w' x e = cc
    fails (suc k, last, fired, conns) w' x e = ap (λ t. t.0.3) (sym e)

    panics : (w w' : Network) → connect w ≡ (w', panic) → conns_of w' ≡ conns_of w
    panics (zero, last, fired, conns) w' e = cc
    panics (suc k, last, fired, conns) w' e = cc

abbrev fresh_network : Network
fresh_network = (0, 0, 0, [])

abbrev started : ReconnectingTransport Network ℕ
started = record { conn = 0; closed = false; world = (2, 0, 0, []) }

abbrev connected : ReconnectingTransport Network ℕ
connected = record { conn = 1; closed = false; world = (0, 1, 1, 1 ∷ []) }

run-Owns_example : Owns numbers network hooks conns_of (
    run numbers network hooks
      (slow_path_action ∷ reset_action 1 ∷ slow_path_action ∷ close_action ∷ [])
      (new_reconnecting_transport numbers network hooks fresh_network))
run-Owns_example =
    run-Owns hooks-Tracks fresh_network
      (slow_path_action ∷ reset_action 1 ∷ slow_path_action ∷ close_action ∷ []) refl

close_for_good_example :
    let r' =
      run numbers network hooks
        (slow_path_action ∷ reset_action 1 ∷ [])
        (close numbers network hooks connected).0 in
    (conns_of r'.world ≡ [])
    × (get_conn numbers network hooks r' ≡ (r', err transport_closed))
    × (peek numbers network hooks r' ≡ false)
close_for_good_example =
    close_for_good numbers network hooks connected (slow_path_action ∷ reset_action 1 ∷ [])
      hooks-Tracks (record { its_own = refl; none_closed = λ e. cc })

-- Two refusals.
down_twice : Outage numbers network hooks 2 (2, 0, 0, []) (0, 1, 0, 1 ∷ []) 1
down_twice = outage (other_error 111) refl (outage (other_error 111) refl (over 1 refl))

get_conn-Outage_example :
    get_conn numbers network hooks (after_calls numbers network hooks 2 started) ≡ (connected, ok 1)
unfolding fire_on_connect
get_conn-Outage_example = get_conn-Outage numbers network hooks 2 started (refl, refl) down_twice

abbrev answer : Response
answer = new_response 7 1 func_read_coils (1 ∷ 5 ∷ [])

abbrev echo : ℕ → Request → Exec Network Response
echo c request w = (w, ok answer)

abbrev patient : Client
patient = record { unit_id = 1; retries = 3 }

send-Outage_example :
    send
      (over_transport numbers network hooks echo)
      patient
      func_read_coils
      (0 ∷ 0 ∷ 0 ∷ 1 ∷ [])
      started
    ≡ (connected, ok answer)
unfolding fire_on_connect is_exception new_response
send-Outage_example =
    send-Outage numbers network hooks echo patient func_read_coils 2 (0 ∷ 0 ∷ 0 ∷ 1 ∷ []) started
      answer (refl, refl) down_twice (omega arith) refl

apply_options-fires_example :
    (fire_on_connect
        (apply_options (options_of (connect_hook fire ∷ disconnect_hook (λ e w. fire w) ∷ [])))
        fresh_network
      ≡ call_each (fire ∷ []) fresh_network)
    × (fire_on_disconnect
          (apply_options (options_of (connect_hook fire ∷ disconnect_hook (λ e w. fire w) ∷ [])))
          none
          fresh_network
        ≡ call_each_with ((λ e w. fire w) ∷ []) none fresh_network)
apply_options-fires_example =
    apply_options-fires (connect_hook fire ∷ disconnect_hook (λ e w. fire w) ∷ []) none
      fresh_network

abbrev direct : DirectTransport Network ℕ
direct = record { conn = 1; active = true; closed = false; world = (0, 1, 1, 1 ∷ []) }

run-Serves_example : Once.Serves numbers network hooks conns_of 1 (
    Once.run numbers network hooks
      (Once.reset_action 7 ∷ Once.close_action ∷ Once.reset_action 1 ∷ [])
      direct)
unfolding new_direct_transport fire_on_connect
run-Serves_example =
    Once.run-Serves hooks-Tracks fresh_network (0, 1, 1, 1 ∷ []) direct
      (Once.reset_action 7 ∷ Once.close_action ∷ Once.reset_action 1 ∷ []) refl refl
