-- ===== src/Serial/Client.antt =====
-- serial/client_context.go and the client half of serial/serial_service.go: this device opens the ports
-- of other peers, each through a port of its own. A call waits 1.2 seconds for its answer: what arrives
-- in that time is a parameter, `none` where nothing does.
use vilan_peer.Base.{ℕ, Bool, true, false, List, [], ◌∷◌, ◌++◌, Option, none, some}
use vilan_peer.Base.{Map, load, store, delete, ◌==◌, ◌||◌, if◌then◌else◌}
use vilan_peer.Serial.{
  PortConfig, ClientFrame, un_auth, get_port_list, open_port, close_port, get_config, Event, opened,
  closed, reading, asked, closed_channel, PortService,
}

-- An answer to OpenPort, ClosePort and GetConfig: its result and its configuration.
pub record Answer : Type 0 where
  pub result : Bool
  pub config : Option PortConfig

-- The surroundings: the clock, the known peers, the connections that ClientContext.Start makes, the
-- answers of the other side, and whether a port of this device can be opened.
pub record Remote : Type 0 where
  pub now : ℕ
  pub find_peer : ℕ → Bool
  pub connect : ℕ → Option ℕ
  pub authorized : ℕ → Option Bool
  pub answer : ClientFrame → Option Answer
  pub port_list : Option (Option (List ℕ))
  pub can_open : PortConfig → Bool

-- ClientContext: `handler` is set when the other side has accepted; `port_ctx` has the configuration of
-- the own port for each port of the other side.
pub record ClientContext : Type 0 where
  pub client_channel : Option ℕ
  pub handler : Option ℕ
  pub port_ctx : Map PortConfig
  pub last_receive : ℕ

-- The client half of PortService.
pub record Clients : Type 0 where
  pub client_ctx : Map ClientContext
  pub log : List Event

-- PortService, both halves.
pub record Ports : Type 0 where
  pub server : PortService
  pub clients : Clients

-- What a call answers.
pub data Result : Type 0 where
  ok failed timed_out : Result
  ok_config : PortConfig → Result
  ok_list : List ℕ → Result
  ok_ports : List PortConfig → Result

abbrev pub did : List Event → Clients → Clients
did es c = record c { log = c.log ++ es }

abbrev pub ask : Option ℕ → ClientFrame → List Event
ask none msg = []
ask (some channel) msg = asked channel msg ∷ []

abbrev pub close_channel : Option ℕ → List Event
close_channel none = []
close_channel (some channel) = closed_channel channel ∷ []

abbrev pub close_all : Map PortConfig → List Event
close_all [] = []
close_all ((name, conf) ∷ ports) = closed name ∷ close_all ports

-- ClientContext.Stop: what it does. The context has no ports afterwards.
abbrev pub stop_client : ClientContext → List Event
stop_client ctx =
    ask ctx.handler un_auth
    ++ (close_all ctx.port_ctx ++ (close_channel ctx.client_channel ++ close_channel ctx.handler))

abbrev pub stop_client_at : ℕ → Option ClientContext → Clients → Clients
stop_client_at id none c = c
stop_client_at id (some ctx) c = record (did (stop_client ctx) c) {
  client_ctx = delete id c.client_ctx;
}

-- DisConnectRemote
unfoldable pub dis_connect_remote : ℕ → Clients → Clients
dis_connect_remote id c = stop_client_at id (load id c.client_ctx) c

-- WaitAuth, with the handler that the answer sets. A context that is refused is deleted, not stopped.
abbrev pub wait_auth : ℕ → ClientContext → Option Bool → Clients → Clients × Result
wait_auth id ctx none c = (record c { client_ctx = delete id c.client_ctx }, timed_out)
wait_auth id ctx (some false) c = (record c { client_ctx = delete id c.client_ctx }, failed)
wait_auth id ctx (some true) c = (
  record c { client_ctx = store id (record ctx { handler = ctx.client_channel }) c.client_ctx },
  ok,
)

abbrev pub connected : Remote → ℕ → Option ℕ → Clients → Clients × Result
connected env id none c = (c, failed)
connected env id (some channel) c =
    let ctx : ClientContext = record {
      client_channel = some channel;
      handler = none;
      port_ctx = [];
      last_receive = env.now;
    } in
    let c1 = dis_connect_remote id c in
    wait_auth id ctx (env.authorized id) (record c1 { client_ctx = store id ctx c1.client_ctx })

-- ConnectRemote
unfoldable pub connect_remote : Remote → ℕ → Clients → Clients × Result
connect_remote env id c =
    if env.find_peer id then connected env id (env.connect id) c else (c, failed)

-- Whether a port is taken: the port of the other side, or the own one.
abbrev pub is_taken : ℕ → ℕ → Map PortConfig → Bool
is_taken remote local [] = false
is_taken remote local ((name, conf) ∷ ports) =
    let rest = is_taken remote local ports in
    if name == remote || conf.name == local then true else rest

abbrev local_config : ℕ → Option PortConfig → PortConfig → PortConfig
local_config local none sent = record sent { name = local }
local_config local (some conf) sent = record conf { name = local }

abbrev pub opened_local :
    Remote → ℕ → PortConfig → ClientContext → ClientContext × (List Event × Result)
opened_local env remote conf ctx =
    if env.can_open conf
    then (
      record ctx { port_ctx = store remote conf ctx.port_ctx },
      (opened remote ∷ reading remote ∷ [], ok),
    )
    else (ctx, ([], failed))

abbrev pub after_open :
    Remote
    → ℕ
    → ℕ
    → Option PortConfig
    → Option Answer
    → ClientContext
    → ClientContext × (List Event × Result)
after_open env remote local conf none ctx = (ctx, ([], timed_out))
after_open env remote local conf (some answer) ctx = elim answer.config [
  | none ↦ (ctx, ([], failed))
  | some sent ↦
      let made = opened_local env remote (local_config local conf sent) ctx in
      if answer.result then made else (ctx, ([], failed))
]

abbrev open_frame : ℕ → Option PortConfig → ClientFrame
open_frame remote conf = open_port (some (record { name = remote; config = conf }))

abbrev first_ask :
    List Event → ClientContext × (List Event × Result) → ClientContext × (List Event × Result)
first_ask es (ctx, (fs, r)) = (ctx, (es ++ fs, r))

abbrev pub asked_open :
    Remote
    → ℕ
    → ℕ
    → Option PortConfig
    → Option ℕ
    → ClientContext
    → ClientContext × (List Event × Result)
asked_open env remote local conf none ctx = (ctx, ([], failed))
asked_open env remote local conf (some channel) ctx =
    first_ask (asked channel (open_frame remote conf) ∷ [])
      (after_open env remote local conf (env.answer (open_frame remote conf)) ctx)

-- ClientContext.OpenPort
unfoldable pub open_port_at :
    Remote → ℕ → ℕ → Option PortConfig → ClientContext → ClientContext × (List Event × Result)
open_port_at env remote local conf ctx =
    if is_taken remote local ctx.port_ctx
    then (ctx, ([], failed))
    else asked_open env remote local conf ctx.handler ctx

abbrev pub answered : Option Answer → Result
answered none = timed_out
answered (some a) = if a.result then ok else failed

abbrev close_local : ℕ → Option PortConfig → List Event
close_local name none = []
close_local name (some conf) = closed name ∷ []

abbrev pub asked_close :
    Remote → ℕ → Option ℕ → ClientContext → ClientContext × (List Event × Result)
asked_close env name none ctx = (ctx, ([], failed))
asked_close env name (some channel) ctx = (
  record ctx { port_ctx = delete name ctx.port_ctx },
  (
    asked channel (close_port (some name)) ∷ close_local name (load name ctx.port_ctx),
    answered (env.answer (close_port (some name))),
  ),
)

-- ClientContext.ClosePort
unfoldable pub close_port_at : Remote → ℕ → ClientContext → ClientContext × (List Event × Result)
close_port_at env name ctx = asked_close env name ctx.handler ctx

abbrev config_result : Option Answer → Result
config_result none = timed_out
config_result (some a) = elim a.config [
  | none ↦ failed
  | some conf ↦ if a.result then ok_config conf else failed
]

abbrev asked_config : Remote → ℕ → Option ℕ → ClientContext → ClientContext × (List Event × Result)
asked_config env name none ctx = (ctx, ([], failed))
asked_config env name (some channel) ctx = (
  ctx,
  (
    asked channel (get_config (some name)) ∷ [],
    config_result (env.answer (get_config (some name))),
  ),
)

-- ClientContext.GetPortConfig
pub get_port_config_at : Remote → ℕ → ClientContext → ClientContext × (List Event × Result)
get_port_config_at env name ctx = asked_config env name ctx.handler ctx

abbrev set_result : Option Answer → Result
set_result none = timed_out
set_result (some a) = elim a.config [ none ↦ failed | some conf ↦ if a.result then ok else failed ]

abbrev asked_set :
    Remote
    → ℕ
    → Option PortConfig
    → Option ℕ
    → ClientContext
    → ClientContext × (List Event × Result)
asked_set env remote conf none ctx = (ctx, ([], failed))
asked_set env remote conf (some channel) ctx = (
  ctx,
  (asked channel (open_frame remote conf) ∷ [], set_result (env.answer (open_frame remote conf))),
)

abbrev unless_open :
    Option PortConfig
    → ClientContext × (List Event × Result)
    → ClientContext
    → ClientContext × (List Event × Result)
unless_open none r ctx = r
unless_open (some conf) r ctx = (ctx, ([], failed))

-- ClientContext.SetPortConfig: the other side opens its port with the configuration.
pub set_port_config_at :
    Remote → ℕ → Option PortConfig → ClientContext → ClientContext × (List Event × Result)
set_port_config_at env remote conf ctx =
    unless_open (load remote ctx.port_ctx) (asked_set env remote conf ctx.handler ctx) ctx

abbrev list_result : Option (Option (List ℕ)) → Result
list_result none = timed_out
list_result (some none) = failed
list_result (some (some names)) = ok_list names

abbrev asked_list : Remote → Option ℕ → ClientContext → ClientContext × (List Event × Result)
asked_list env none ctx = (ctx, ([], failed))
asked_list env (some channel) ctx =
    (ctx, (asked channel get_port_list ∷ [], list_result env.port_list))

-- ClientContext.GetPortList
pub get_port_list_at : Remote → ClientContext → ClientContext × (List Event × Result)
get_port_list_at env ctx = asked_list env ctx.handler ctx
