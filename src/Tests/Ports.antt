-- ===== src/Tests/Ports.antt =====
-- serial/serial_service.go on concrete states.
use vilan_peer.Base.{
  inl, List, ◌++◌, ◌+◌, ◌≡◌, refl, true, false, [], ◌∷◌, none, some, load, store, delete, ◌==◌,
}
use vilan_peer.Serial.{
  Event, ClientFrame, open_port, auth, Env, ServerContext, PortService, process_client_message,
  process_frame, process_msg, state_check, stop_service, set_server_handle,
}
use vilan_peer.Serial.Contexts.{held}
use vilan_peer.Serial.Balance.{EachClosed, opens, closes}
use vilan_peer.Serial.Expiry.{load-state_check}
use vilan_peer.Serial.Reachable.{
  started, IsReachable, IsBalanced, start, step, received, IsReachable-IsBalanced,
  stop_service-closes, auth_again_leaks,
}
use vilan_peer.Serial.Access.{process_frame_impostor}

-- The program knows the peer 0xb2.
abbrev env : Env
env = record {
  now = 100;
  find_peer = λ mac. mac == 0xb2;
  can_open = λ conf. true;
  can_write = λ name bytes. true;
  local_config = λ name. none;
  ports_list = some (3 ∷ []);
}

abbrev opening : ClientFrame
opening = open_port (some (record { name = 3; config = none }))

abbrev registered : PortService
registered = process_client_message env 0xb2 (auth true) 9 started

abbrev pub opened_port : PortService
opened_port = process_client_message env 0xb2 opening 9 registered

reachable : IsReachable opened_port
unfolding load
reachable =
    step (step start (received env 0xb2 (auth true) 9 refl refl))
      (received env 0xb2 opening 9 tt refl)

IsReachable-IsBalanced_example : IsBalanced opened_port
IsReachable-IsBalanced_example = IsReachable-IsBalanced opened_port reachable

stop_service-closes_example :
    (opens (stop_service opened_port).log ≡ closes (stop_service opened_port).log)
    × ((stop_service opened_port).server_ctx ≡ [])
    × (es : List Event) × ((stop_service opened_port).log ≡ opened_port.log ++ es)
    × EachClosed es opened_port.server_ctx
stop_service-closes_example = stop_service-closes opened_port reachable

abbrev context : ServerContext
context = record {
  handler = 9;
  port_ctx = (3, record { name = 3; baud = 9600; size = 8; parity = 78; stop_bits = 1 }) ∷ [];
  last_receive = 100;
}

has_port : load 0xb2 opened_port.server_ctx ≡ some context
unfolding load store delete process_client_message process_msg set_server_handle
has_port = refl

auth_again_leaks_example :
    let t = process_client_message env 0xb2 (auth true) 10 opened_port in
    opens t.log ≡ closes t.log + held t.server_ctx + 1
auth_again_leaks_example = auth_again_leaks env 0xb2 10 context opened_port reachable has_port refl

abbrev later : Env
later = record env { now = 166 }

load-state_check_example :
    load 0xb2
      (state_check later (record { server_ctx = (0xb2, context) ∷ []; log = [] })).server_ctx
    ≡ none
unfolding load
load-state_check_example =
    load-state_check later (record { server_ctx = (0xb2, context) ∷ []; log = [] }) 0xb2 (refl, tt)

process_frame_impostor_example :
    let first = process_frame env false 0xee (auth true) 11 registered in
    (first ≡ (true, registered))
    × (process_frame env first.0 0xb2 opening 11 first.1
        ≡ (true, process_client_message env 0xb2 opening 11 registered))
process_frame_impostor_example =
    process_frame_impostor env 0xee 0xb2 true opening 11 registered (inl refl)
