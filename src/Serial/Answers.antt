-- ===== src/Serial/Answers.antt =====
-- What arrives from the other side of a client's connection: processMsg of serial/client_context.go,
-- serial/client_handler.go, and ProcessServerMessage.
use vilan_peer.Base.{
  ℕ, ◌≡◌, Bool, true, false, List, [], ◌∷◌, Option, none, some, load, store, if◌then◌else◌,
  Bool-cases, inl, inr,
}
use vilan_peer.Serial.{PortConfig, Data, Event, wrote}
use vilan_peer.Serial.Client.{Answer, ClientContext, Clients, did}

-- message.MsgServerFrame, as the client reads it, by its type; the message of that type may be missing.
pub data Received : Type 0 where
  data_frame : Option Data → Received
  data_ack auth_ack : Bool → Received
  open_port_ack close_port_ack get_config_ack : Option (ℕ × Answer) → Received
  port_list_ack : Option (Option (List ℕ)) → Received
  ping other : Received

-- The keys of `msgResult`: the call that waits.
pub data Waiting : Type 0 where
  for_auth for_list : Waiting
  for_open for_close for_config : ℕ → Waiting

-- What is sent to a waiting call.
pub data Delivered : Type 0 where
  answer : Answer → Delivered
  list : List ℕ → Delivered
  no_list : Delivered

abbrev pub deliver : (Waiting → Bool) → Waiting → Delivered → Option (Waiting × Delivered)
deliver waits k d = if waits k then some (k, d) else none

abbrev bare : Bool → Delivered
bare result = answer (record { result = result; config = none })

abbrev whole_config : Answer → Delivered
whole_config a = elim a.config [
  | none ↦ bare false
  | some conf ↦ if a.result then answer a else bare false
]

abbrev written_to : Data → Option PortConfig → List Event
written_to msg none = []
written_to msg (some conf) = wrote msg.name msg.bytes ∷ []

-- ClientContext.processMsg: what it does, and which waiting call it answers with what.
unfoldable pub process_msg :
    (Waiting → Bool) → Received → ClientContext → List Event × Option (Waiting × Delivered)
process_msg waits (data_frame none) ctx = ([], none)
process_msg waits (data_frame (some msg)) ctx = (written_to msg (load msg.name ctx.port_ctx), none)
process_msg waits (data_ack given) ctx = ([], none)
process_msg waits (auth_ack given) ctx = ([], deliver waits for_auth (bare given))
process_msg waits (open_port_ack none) ctx = ([], none)
process_msg waits (open_port_ack (some (name, a))) ctx =
    ([], deliver waits (for_open name) (answer a))
process_msg waits (close_port_ack none) ctx = ([], none)
process_msg waits (close_port_ack (some (name, a))) ctx =
    ([], deliver waits (for_close name) (bare a.result))
process_msg waits (get_config_ack none) ctx = ([], none)
process_msg waits (get_config_ack (some (name, a))) ctx =
    ([], deliver waits (for_config name) (whole_config a))
process_msg waits (port_list_ack none) ctx = ([], none)
process_msg waits (port_list_ack (some none)) ctx = ([], deliver waits for_list no_list)
process_msg waits (port_list_ack (some (some names))) ctx =
    ([], deliver waits for_list (list names))
process_msg waits ping ctx = ([], none)
process_msg waits other ctx = ([], none)

abbrev heard_at : ℕ → ℕ → ClientContext → Clients → Clients
heard_at now id ctx c = record c {
  client_ctx = store id (record ctx { last_receive = now }) c.client_ctx;
}

abbrev pub taken :
    (Waiting → Bool)
    → ℕ
    → ℕ
    → Received
    → Option ClientContext
    → Clients
    → Clients × Option (Waiting × Delivered)
taken waits now id msg none c = (c, none)
taken waits now id msg (some ctx) c =
    let (es, d) = process_msg waits msg ctx in (did es (heard_at now id ctx c), d)

abbrev with_handler : ℕ → Option ClientContext → Option ClientContext
with_handler channel none = none
with_handler channel (some ctx) = some (record ctx { handler = some channel })

abbrev heard_only : ℕ → ℕ → Option ClientContext → Clients → Clients
heard_only now id none c = c
heard_only now id (some ctx) c = heard_at now id ctx c

-- ProcessServerMessage at a time, for a frame on a channel; the answer to a ping is left to the network.
unfoldable pub process_server_message :
    (Waiting → Bool) → ℕ → ℕ → Received → ℕ → Clients → Clients × Option (Waiting × Delivered)
process_server_message waits now id (auth_ack given) channel c =
    taken waits now id (auth_ack given) (with_handler channel (load id c.client_ctx)) c
process_server_message waits now id ping channel c =
    (heard_only now id (load id c.client_ctx) c, none)
process_server_message waits now id msg channel c = taken waits now id msg (load id c.client_ctx) c

abbrev pub is_auth_ack : Received → Bool
is_auth_ack (auth_ack given) = true
is_auth_ack _ = false

-- ClientHandler.processMsg, with the flag `auth` of the handler.
unfoldable pub process_frame :
    (Waiting → Bool)
    → ℕ
    → Bool
    → ℕ
    → Received
    → ℕ
    → Clients
    → Bool × (Clients × Option (Waiting × Delivered))
process_frame waits now accepted id msg channel c =
    let done = process_server_message waits now id msg channel c in
    if is_auth_ack msg then (true, done) else if accepted then (true, done) else (false, (c, none))

-- That what is delivered goes to a call that waits.
abbrev pub IsAwaited : (Waiting → Bool) → Option (Waiting × Delivered) → Type 0
IsAwaited waits none = Unit
IsAwaited waits (some (k, d)) = waits k ≡ true

deliver-IsAwaited :
    (waits : Waiting → Bool) (k : Waiting) (d : Delivered) → IsAwaited waits (deliver waits k d)
deliver-IsAwaited waits k d = elim (Bool-cases (waits k)) [
  | inl yes' ↦ rw yes' yes'
  | inr no' ↦ rw no' tt
]

process_msg-IsAwaited :
    (waits : Waiting → Bool) (msg : Received) (ctx : ClientContext)
    → IsAwaited waits (process_msg waits msg ctx).1
unfolding process_msg
process_msg-IsAwaited waits (data_frame none) ctx = tt
process_msg-IsAwaited waits (data_frame (some msg)) ctx = tt
process_msg-IsAwaited waits (data_ack given) ctx = tt
process_msg-IsAwaited waits (auth_ack given) ctx = deliver-IsAwaited waits for_auth (bare given)
process_msg-IsAwaited waits (open_port_ack none) ctx = tt
process_msg-IsAwaited waits (open_port_ack (some (name, a))) ctx =
    deliver-IsAwaited waits (for_open name) (answer a)
process_msg-IsAwaited waits (close_port_ack none) ctx = tt
process_msg-IsAwaited waits (close_port_ack (some (name, a))) ctx =
    deliver-IsAwaited waits (for_close name) (bare a.result)
process_msg-IsAwaited waits (get_config_ack none) ctx = tt
process_msg-IsAwaited waits (get_config_ack (some (name, a))) ctx =
    deliver-IsAwaited waits (for_config name) (whole_config a)
process_msg-IsAwaited waits (port_list_ack none) ctx = tt
process_msg-IsAwaited waits (port_list_ack (some none)) ctx =
    deliver-IsAwaited waits for_list no_list
process_msg-IsAwaited waits (port_list_ack (some (some names))) ctx =
    deliver-IsAwaited waits for_list (list names)
process_msg-IsAwaited waits ping ctx = tt
process_msg-IsAwaited waits other ctx = tt

taken-IsAwaited :
    (waits : Waiting → Bool) (now id : ℕ) (msg : Received) (o : Option ClientContext) (c : Clients)
    → IsAwaited waits (taken waits now id msg o c).1
taken-IsAwaited waits now id msg none c = tt
taken-IsAwaited waits now id msg (some ctx) c = process_msg-IsAwaited waits msg ctx

process_server_message-IsAwaited :
    (waits : Waiting → Bool) (now id : ℕ) (msg : Received) (channel : ℕ) (c : Clients)
    → IsAwaited waits (process_server_message waits now id msg channel c).1
unfolding process_server_message
process_server_message-IsAwaited waits now id (auth_ack given) channel c =
    taken-IsAwaited waits now id (auth_ack given) (with_handler channel (load id c.client_ctx)) c
process_server_message-IsAwaited waits now id ping channel c = tt
process_server_message-IsAwaited waits now id (data_frame d) channel c =
    taken-IsAwaited waits now id (data_frame d) (load id c.client_ctx) c
process_server_message-IsAwaited waits now id (data_ack d) channel c =
    taken-IsAwaited waits now id (data_ack d) (load id c.client_ctx) c
process_server_message-IsAwaited waits now id (open_port_ack d) channel c =
    taken-IsAwaited waits now id (open_port_ack d) (load id c.client_ctx) c
process_server_message-IsAwaited waits now id (close_port_ack d) channel c =
    taken-IsAwaited waits now id (close_port_ack d) (load id c.client_ctx) c
process_server_message-IsAwaited waits now id (get_config_ack d) channel c =
    taken-IsAwaited waits now id (get_config_ack d) (load id c.client_ctx) c
process_server_message-IsAwaited waits now id (port_list_ack d) channel c =
    taken-IsAwaited waits now id (port_list_ack d) (load id c.client_ctx) c
process_server_message-IsAwaited waits now id other channel c =
    taken-IsAwaited waits now id other (load id c.client_ctx) c

-- Whatever frame arrives on a client's channel, an answer goes to no call but one that waits for it.
pub process_frame-IsAwaited :
    (waits : Waiting → Bool) (now : ℕ) (accepted : Bool) (id : ℕ) (msg : Received) (channel : ℕ)
    (c : Clients)
    → IsAwaited waits (process_frame waits now accepted id msg channel c).1.1
unfolding process_frame
process_frame-IsAwaited waits now accepted id msg channel c =
    let awaited = process_server_message-IsAwaited waits now id msg channel c in
    elim (Bool-cases (is_auth_ack msg)) [
      | inl yes' ↦ rw yes' awaited
      | inr no' ↦ elim (Bool-cases accepted) [
        | inl on ↦ rw (no', on) awaited
        | inr off ↦ rw (no', off) tt
      ]
    ]
