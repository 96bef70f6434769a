-- ===== src/Serial/Calls.antt =====
-- The calls of PortService on the ports of other peers: each works on the context of its peer, and makes
-- a new one where there is none or the call has timed out.
use vilan_peer.Base.{
  ℕ, Bool, true, false, List, [], ◌∷◌, Option, none, some, Map, load, store, length, leb, ◌++◌,
  if◌then◌else◌,
}
use vilan_peer.Serial.{PortConfig, Event, delete_context}
use vilan_peer.Serial.Client.{
  Remote, ClientContext, Clients, Ports, stop_client, Result, ok, failed, timed_out, ok_ports, did,
  close_channel, stop_client_at, dis_connect_remote, connect_remote, wait_auth, open_port_at,
  close_port_at, get_port_config_at, set_port_config_at, get_port_list_at,
}

abbrev pub is_ok : Result → Bool
is_ok ok = true
is_ok _ = false

abbrev pub is_timed_out : Result → Bool
is_timed_out timed_out = true
is_timed_out _ = false

-- A call on a context.
abbrev pub Call : Type 0
Call = ClientContext → ClientContext × (List Event × Result)

abbrev pub with_clients : Ports → Clients → Ports
with_clients p c = record p { clients = c }

-- The clients after a call on the context of a peer, and its result.
abbrev pub run_call : ℕ → ClientContext × (List Event × Result) → Clients → Clients × Result
run_call id (ctx, (es, r)) c = (record (did es c) { client_ctx = store id ctx c.client_ctx }, r)

abbrev close_handler : Option ClientContext → List Event
close_handler none = []
close_handler (some ctx) = close_channel ctx.handler

-- deleteContext of the client half.
abbrev pub delete_client : ℕ → Clients → Clients
delete_client id c =
    stop_client_at id (load id c.client_ctx) (did (close_handler (load id c.client_ctx)) c)

-- deleteContext: both halves forget the peer.
unfoldable pub delete_both : ℕ → Ports → Ports
delete_both id p = record {
  server = delete_context id p.server;
  clients = delete_client id p.clients;
}

abbrev pub on_new : ℕ → Call → Option ClientContext → Clients → Clients × Result
on_new id call none c = (c, failed)
on_new id call (some ctx) c = run_call id (call ctx) c

abbrev pub if_connected : ℕ → Call → Clients × Result → Clients × Result
if_connected id call (c, r) =
    if is_ok r then on_new id call (load id c.client_ctx) c else (c, failed)

-- The second half of a call: a new connection, and the call on it.
abbrev pub call_anew : Remote → ℕ → Call → Ports → Ports × Result
call_anew env id call p =
    let (c, r) = if_connected id call (connect_remote env id p.clients) in (with_clients p c, r)

abbrev pub unless_timed_out : Remote → ℕ → Call → Clients × Result → Ports → Ports × Result
unless_timed_out env id call (c, r) p =
    if is_timed_out r
    then call_anew env id call (delete_both id (with_clients p c))
    else (with_clients p c, r)

abbrev pub call_on : Remote → ℕ → Call → Option ClientContext → Ports → Ports × Result
call_on env id call none p = call_anew env id call p
call_on env id call (some ctx) p = unless_timed_out env id call (run_call id (call ctx) p.clients) p

-- The course of OpenPort, GetPortConfig, SetPortConfig, GetConnectedPorts and GetRemotePortList.
unfoldable pub call_remote : Remote → ℕ → Call → Ports → Ports × Result
call_remote env id call p = call_on env id call (load id p.clients.client_ctx) p

-- OpenPort
pub open_port : Remote → ℕ → ℕ → ℕ → Option PortConfig → Ports → Ports × Result
open_port env id remote local conf p = call_remote env id (open_port_at env remote local conf) p

-- GetPortConfig
pub get_port_config : Remote → ℕ → ℕ → Ports → Ports × Result
get_port_config env id name p = call_remote env id (get_port_config_at env name) p

-- SetPortConfig
pub set_port_config : Remote → ℕ → ℕ → Option PortConfig → Ports → Ports × Result
set_port_config env id remote conf p = call_remote env id (set_port_config_at env remote conf) p

abbrev configs : Map PortConfig → List PortConfig
configs [] = []
configs ((name, conf) ∷ ports) = conf ∷ configs ports

-- GetConnectedPorts
pub get_connected_ports : Remote → ℕ → Ports → Ports × Result
get_connected_ports env id p =
    call_remote env id (λ ctx. (ctx, ([], ok_ports (configs ctx.port_ctx)))) p

-- GetRemotePortList
pub get_remote_port_list : Remote → ℕ → Ports → Ports × Result
get_remote_port_list env id p = call_remote env id (get_port_list_at env) p

abbrev close_on : Remote → ℕ → ℕ → Option ClientContext → Clients → Clients × Result
close_on env id name none c = (c, failed)
close_on env id name (some ctx) c =
    let (ctx', (es, r)) = close_port_at env name ctx in
    let (c', r') = run_call id (ctx', (es, r)) c in
    if leb (length ctx'.port_ctx) 0 then (dis_connect_remote id c', r') else (c', r')

-- ClosePort: without ports the connection is closed.
pub close_port : Remote → ℕ → ℕ → Clients → Clients × Result
close_port env id name c = close_on env id name (load id c.client_ctx) c

-- A context after ClientContext.Stop.
abbrev pub stopped : ClientContext → ClientContext
stopped ctx = record ctx { client_channel = none; port_ctx = [] }

-- The ports that ReConnectRemote collects of the old context, which it has stopped by then.
abbrev pub collected : Option ClientContext → Map PortConfig
collected none = []
collected (some ctx) = (stopped ctx).port_ctx

abbrev pub reopen_each : Remote → ℕ → Map PortConfig → Ports → Ports
reopen_each env id [] p = p
reopen_each env id ((remote, conf) ∷ ports) p =
    reopen_each env id ports (open_port env id remote conf.name (some conf) p).0

abbrev pub reopened : Remote → ℕ → Map PortConfig → Clients × Result → Ports → Ports × Result
reopened env id ports (c, r) p =
    if is_ok r then (reopen_each env id ports (with_clients p c), r) else (with_clients p c, r)

abbrev pub reconnected : Remote → ℕ → Option ℕ → Ports → Ports × Result
reconnected env id none p = (p, failed)
reconnected env id (some channel) p =
    let ctx : ClientContext = record {
      client_channel = some channel;
      handler = none;
      port_ctx = [];
      last_receive = env.now;
    } in
    let c1 = dis_connect_remote id p.clients in
    reopened env id (collected (load id p.clients.client_ctx))
      (wait_auth id ctx (env.authorized id) (record c1 { client_ctx = store id ctx c1.client_ctx }))
      p

-- ReConnectRemote
unfoldable pub re_connect_remote : Remote → ℕ → Ports → Ports × Result
re_connect_remote env id p =
    if env.find_peer id then reconnected env id (env.connect id) p else (p, failed)

abbrev stop_each : Map ClientContext → List Event
stop_each [] = []
stop_each ((id, ctx) ∷ m) = stop_client ctx ++ stop_each m

-- Stop, of the connections to other peers.
unfoldable pub stop_clients : Clients → Clients
stop_clients c = record (did (stop_each c.client_ctx) c) { client_ctx = [] }
