-- ===== src/Modbus/Connection/Safety.antt =====
-- The server answers every frame of a connection, and no input makes it panic.
use goindustrial.Base.{ℕ, inl, inr, ◌==◌, Bool-cases, none}
use goindustrial.Modbus.Frame.{Request}
use goindustrial.Modbus.Store.{DataStore}
use goindustrial.Modbus.Store.Laws.{IsLawful}
use goindustrial.Modbus.Server.{Handler}
use goindustrial.Modbus.Server.Answers.{
  Answered, refused, handle_read_coils-Answered, handle_read_discrete_inputs-Answered,
  handle_read_holding_registers-Answered, handle_read_input_registers-Answered,
}
use goindustrial.Modbus.Server.Answers.Writes.{
  handle_write_single_coil-Answered, handle_write_single_register-Answered,
  handle_write_multiple_coils-Answered, handle_write_multiple_registers-Answered,
  handle_read_write_multiple_registers-Answered,
}
use goindustrial.Modbus.Server.Device.Answer.{handle_read_device_identification-Answered}
use goindustrial.Modbus.Connection.{Handlers, set_handler, setup_default_handlers, dispatch_request}

-- Every request is answered.
abbrev pub Serves : {S : Type 0} → Handlers S → Type 0
Serves {S} handlers = (req : Request) (s : S) → Answered req (dispatch_request handlers req s).1

set_handler-Serves :
    {S : Type 0} (function_code : ℕ) (handler : Handler S) (handlers : Handlers S)
    → ((req : Request) (s : S) → Answered req (handler req s).1)
    → Serves handlers
    → Serves (set_handler function_code handler handlers)
unfolding dispatch_request set_handler
set_handler-Serves function_code handler handlers good others req s =
    elim (Bool-cases (req.pdu.function_code == function_code)) [
      | inl same ↦ rw same (good req s)
      | inr other ↦ rw other (others req s)
    ]

no_handlers-Serves : {S : Type 0} → Serves {S = S} (λ _. none)
unfolding dispatch_request
no_handlers-Serves req s = refused 1

-- The default handlers answer every request, with a response to it or with an exception, over
-- every store that keeps the interface's promises.
pub setup_default_handlers-Serves :
    {S : Type 0} (store : DataStore S) → IsLawful store → Serves (setup_default_handlers store)
unfolding setup_default_handlers
setup_default_handlers-Serves store lawful =
    search
      (
        set_handler-Serves,
        no_handlers-Serves,
        handle_read_device_identification-Answered,
        handle_read_write_multiple_registers-Answered store lawful,
        handle_write_multiple_registers-Answered store lawful,
        handle_write_multiple_coils-Answered store lawful,
        handle_write_single_register-Answered store lawful,
        handle_write_single_coil-Answered store lawful,
        handle_read_input_registers-Answered store lawful,
        handle_read_holding_registers-Answered store lawful,
        handle_read_discrete_inputs-Answered store lawful,
        handle_read_coils-Answered store lawful,
      )
      depth 14
