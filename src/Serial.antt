-- ===== src/Serial.antt =====
-- serial/server_context.go, serial/server_handler.go and the serving half of serial/serial_service.go:
-- other peers open this device's serial ports and exchange data with them. A port is known by its
-- name, which is only compared, and so a number. The flag Running, which ends the loop that reads a
-- port, is not kept.
pub mod Contexts
pub mod Balance
pub mod Expiry
pub mod Reachable
pub mod Access
pub mod Client
pub mod Calls
pub mod Reconnect
pub mod Answers
pub mod Round
pub mod Pairs
use vilan_peer.Base.{ℕ, ◌+◌, ◌-◌, Bool, true, false, List, [], ◌∷◌, ◌++◌, Option, none, some}
use vilan_peer.Base.{Map, load, store, delete, ltb, not, if◌then◌else◌}

-- serial2.Config, and MsgConfig with its name.
pub record PortConfig : Type 0 where
  pub name : ℕ
  pub baud : ℕ
  pub size : ℕ
  pub parity : ℕ
  pub stop_bits : ℕ

-- message.MsgData
pub record Data : Type 0 where
  pub sn : ℕ
  pub name : ℕ
  pub need_ack : Bool
  pub bytes : List ℕ

-- message.MsgOpenPort
pub record OpenPort : Type 0 where
  pub name : ℕ
  pub config : Option PortConfig

-- message.MsgClientFrame, by its type; the message of that type may be missing. `other` is a type that
-- the server does not handle.
pub data ClientFrame : Type 0 where
  auth : Bool → ClientFrame
  un_auth ping get_port_list other : ClientFrame
  data' : Option Data → ClientFrame
  open_port : Option OpenPort → ClientFrame
  close_port get_config : Option ℕ → ClientFrame

-- message.MsgServerFrame, as the server writes it.
pub data ServerFrame : Type 0 where
  auth_ack pong : ServerFrame
  data_ack : ℕ → ℕ → Bool → ServerFrame
  open_port_ack : ℕ → Option PortConfig → ServerFrame
  close_port_ack : ℕ → ServerFrame
  get_config_ack : ℕ → PortConfig → ServerFrame
  port_list_ack : Option (List ℕ) → ServerFrame
  closed_state : ℕ → ServerFrame

-- What the server does to its surroundings, oldest first: ports, by the names that they are kept
-- under, that are opened, closed, read and
-- written, frames on channels, and configurations that are kept.
pub data Event : Type 0 where
  opened closed reading : ℕ → Event
  wrote : ℕ → List ℕ → Event
  sent : ℕ → ServerFrame → Event
  asked : ℕ → ClientFrame → Event
  closed_channel : ℕ → Event
  kept_config : PortConfig → Event

-- The surroundings: the clock in seconds, the peers that the runtime service knows, and the ports.
pub record Env : Type 0 where
  pub now : ℕ
  pub find_peer : ℕ → Bool
  pub can_open : PortConfig → Bool
  pub can_write : ℕ → List ℕ → Bool
  pub local_config : ℕ → Option PortConfig
  pub ports_list : Option (List ℕ)

-- ServerContext; `port_ctx` has the configuration of each open port.
pub record ServerContext : Type 0 where
  pub handler : ℕ
  pub port_ctx : Map PortConfig
  pub last_receive : ℕ

-- The serving half of PortService.
pub record PortService : Type 0 where
  pub server_ctx : Map ServerContext
  pub log : List Event

-- NewServerContext
abbrev pub new_server_context : Env → ℕ → ServerContext
new_server_context env channel = record { handler = channel; port_ctx = []; last_receive = env.now }

-- The Range of ServerContext.Stop.
abbrev pub close_ports : ℕ → Map PortConfig → List Event
close_ports channel [] = []
close_ports channel ((name, conf) ∷ ports) =
    closed name ∷ sent channel (closed_state name) ∷ close_ports channel ports

-- ServerContext.Stop: what it does. The context has no ports afterwards.
abbrev pub stop_context : ServerContext → List Event
stop_context ctx = close_ports ctx.handler ctx.port_ctx ++ (closed_channel ctx.handler ∷ [])

abbrev default_config : ℕ → PortConfig
default_config name = record { name = name; baud = 9600; size = 8; parity = 78; stop_bits = 1 }

abbrev or_default : ℕ → Option PortConfig → PortConfig × Bool
or_default name none = (default_config name, true)
or_default name (some conf) = (conf, false)

-- The configuration to open a port with, and whether it is kept.
abbrev pub chosen_config : Env → OpenPort → PortConfig × Bool
chosen_config env msg = elim msg.config [
  | none ↦ or_default msg.name (env.local_config msg.name)
  | some conf ↦ (record conf { name = msg.name }, true)
]

abbrev pub close_old : ℕ → Option PortConfig → List Event
close_old name none = []
close_old name (some conf) = closed name ∷ []

abbrev pub keep_if : Bool → PortConfig → List Event
keep_if true conf = kept_config conf ∷ []
keep_if false conf = []

-- The branch of OpenPort.
abbrev pub process_open : Env → OpenPort → ServerContext → ServerContext × List Event
process_open env msg ctx =
    let (conf, keep) = chosen_config env msg in
    let old = close_old msg.name (load msg.name ctx.port_ctx) in
    let ports = delete msg.name ctx.port_ctx in
    if env.can_open conf
    then (
      record ctx { port_ctx = store msg.name conf ports },
      old
          ++ (opened msg.name
              ∷ sent ctx.handler (open_port_ack msg.name (some conf))
              ∷ reading msg.name
              ∷ keep_if keep conf),
    )
    else (
      record ctx { port_ctx = ports },
      old ++ (sent ctx.handler (open_port_ack msg.name none) ∷ keep_if keep conf),
    )

-- The branch of Data.
abbrev pub written : Env → Data → ServerContext → Option PortConfig → List Event
written env msg ctx none = []
written env msg ctx (some conf) =
    wrote msg.name msg.bytes
    ∷ (if msg.need_ack
        then sent ctx.handler (data_ack msg.sn msg.name (env.can_write msg.name msg.bytes)) ∷ []
        else [])

-- The branch of GetConfig: without a configuration the answer panics, and that is recovered.
abbrev pub config_answer : ℕ → ServerContext → Option PortConfig → List Event
config_answer name ctx none = []
config_answer name ctx (some conf) = sent ctx.handler (get_config_ack name conf) ∷ []

abbrev pub or_local : Env → ℕ → Option PortConfig → Option PortConfig
or_local env name none = env.local_config name
or_local env name (some conf) = some conf

-- ServerContext.processMsg
unfoldable pub process_msg : Env → ClientFrame → ServerContext → ServerContext × List Event
process_msg env (data' none) ctx = (ctx, [])
process_msg env (data' (some msg)) ctx = (ctx, written env msg ctx (load msg.name ctx.port_ctx))
process_msg env (open_port none) ctx = (ctx, [])
process_msg env (open_port (some msg)) ctx = process_open env msg ctx
process_msg env (close_port none) ctx = (ctx, [])
process_msg env (close_port (some name)) ctx = (
  record ctx { port_ctx = delete name ctx.port_ctx },
  close_old name (load name ctx.port_ctx) ++ (sent ctx.handler (close_port_ack name) ∷ []),
)
process_msg env (get_config none) ctx = (ctx, [])
process_msg env (get_config (some name)) ctx =
    (ctx, config_answer name ctx (or_local env name (load name ctx.port_ctx)))
process_msg env get_port_list ctx = (ctx, sent ctx.handler (port_list_ack env.ports_list) ∷ [])
process_msg env (auth given) ctx = (ctx, [])
process_msg env un_auth ctx = (ctx, [])
process_msg env ping ctx = (ctx, [])
process_msg env other ctx = (ctx, [])

abbrev pub note : List Event → PortService → PortService
note es s = record s { log = s.log ++ es }

-- SetServerHandle. A context that is there already is replaced, and not stopped.
unfoldable pub set_server_handle : Env → ℕ → ℕ → PortService → PortService
set_server_handle env id channel s = record s {
  server_ctx = store id (new_server_context env channel) s.server_ctx;
}

abbrev pub stop_at : ℕ → Option ServerContext → PortService → PortService
stop_at id none s = s
stop_at id (some ctx) s = record (note (stop_context ctx) s) { server_ctx = delete id s.server_ctx }

-- RemoveServerHandler
unfoldable pub remove_server_handler : ℕ → PortService → PortService
remove_server_handler id s = stop_at id (load id s.server_ctx) s

abbrev pub heard : Env → ℕ → Option ServerContext → PortService → PortService
heard env id none s = s
heard env id (some ctx) s = record s {
  server_ctx = store id (record ctx { last_receive = env.now }) s.server_ctx;
}

abbrev pub passed_to : Env → ℕ → ClientFrame → Option ServerContext → PortService → PortService
passed_to env id msg none s = s
passed_to env id msg (some ctx) s =
    let (ctx', es) = process_msg env msg (record ctx { last_receive = env.now }) in
    record (note es s) { server_ctx = store id ctx' s.server_ctx }

-- ProcessClientMessage: `id` is the sender that the frame names, `channel` the one that it came on.
unfoldable pub process_client_message : Env → ℕ → ClientFrame → ℕ → PortService → PortService
process_client_message env id (auth false) channel s = s
process_client_message env id (auth true) channel s =
    if env.find_peer id
    then set_server_handle env id channel (note (sent channel auth_ack ∷ []) s)
    else s
process_client_message env id un_auth channel s = remove_server_handler id s
process_client_message env id ping channel s =
    note (sent channel pong ∷ []) (heard env id (load id s.server_ctx) s)
process_client_message env id msg channel s = passed_to env id msg (load id s.server_ctx) s

abbrev pub is_auth : ClientFrame → Bool
is_auth (auth given) = true
is_auth _ = false

-- ServerHandler.processMsg, with the flag `auth` of the handler of one channel.
unfoldable pub process_frame : Env → Bool → ℕ → ClientFrame → ℕ → PortService → Bool × PortService
process_frame env authorized id msg channel s =
    if is_auth msg
    then (true, process_client_message env id msg channel s)
    else if authorized
    then (true, process_client_message env id msg channel s)
    else (false, s)

-- now-v.LastReceive > 65
abbrev pub is_silent : Env → ServerContext → Bool
is_silent env ctx = ltb 65 (env.now - ctx.last_receive)

-- The Range of stateCheck over the served peers: what it does, and the keys to remove.
abbrev pub stop_silent : Env → Map ServerContext → List Event
stop_silent env [] = []
stop_silent env ((id, ctx) ∷ m) =
    let rest = stop_silent env m in if is_silent env ctx then stop_context ctx ++ rest else rest

abbrev pub silent_keys : Env → Map ServerContext → List ℕ
silent_keys env [] = []
silent_keys env ((id, ctx) ∷ m) =
    let rest = silent_keys env m in if is_silent env ctx then id ∷ rest else rest

abbrev pub delete_each : List ℕ → Map ServerContext → Map ServerContext
delete_each [] m = m
delete_each (k ∷ ks) m = delete_each ks (delete k m)

-- One round of stateCheck over the served peers.
unfoldable pub state_check : Env → PortService → PortService
state_check env s = record (note (stop_silent env s.server_ctx) s) {
  server_ctx = delete_each (silent_keys env s.server_ctx) s.server_ctx;
}

abbrev pub stop_each : Map ServerContext → List Event
stop_each [] = []
stop_each ((id, ctx) ∷ m) = stop_context ctx ++ stop_each m

-- Stop, of the served peers.
unfoldable pub stop_service : PortService → PortService
stop_service s = record (note (stop_each s.server_ctx) s) { server_ctx = [] }

abbrev pub close_first : Option ServerContext → List Event
close_first none = []
close_first (some ctx) = closed_channel ctx.handler ∷ []

-- deleteContext and PeerStateChanged, of the served peers.
unfoldable pub delete_context : ℕ → PortService → PortService
delete_context mac s =
    stop_at mac (load mac s.server_ctx) (note (close_first (load mac s.server_ctx)) s)
