-- ===== src/Serial/Reachable.antt =====
-- What a server of serial ports can come to, step by step, and what holds of it throughout.
use vilan_peer.Base.{
  ℕ, ◌+◌, ◌≡◌, refl, sym, ap, subst, arith, Bool, true, false, List, [], ◌∷◌, ◌++◌, Option, none,
  some,
}
use vilan_peer.Base.{load, length, Bool-cases, inl, inr}
use vilan_peer.Serial.{
  ClientFrame, data', open_port, close_port, get_config, get_port_list, auth, un_auth, ping, other,
  Event, sent, auth_ack, pong, Env, ServerContext, PortService, note, stop_context, stop_at, heard,
  passed_to, process_msg, set_server_handle, remove_server_handler, process_client_message,
  state_check, stop_service, delete_context, close_first, stop_silent, stop_each,
  new_server_context,
}
use vilan_peer.Serial.Contexts.{
  IsUnique, EachUnique, PortsUnique, held, ports_of, IsUnique-store, IsUnique-delete, held-store,
  held-delete, EachUnique-store, EachUnique-delete, EachUnique-load,
}
use vilan_peer.Serial.Balance.{
  opens, closes, opens-append, closes-append, stop_context-count, process_msg-StaysEven,
  stop_each-EachClosed, EachClosed,
}
use vilan_peer.Serial.Expiry.{
  delete_each-silent_keys, stop_silent-count, stop_each-count, talking-IsUnique, talking-EachUnique,
}

-- A registration of a peer that has no context yet.
abbrev pub IsFresh : ClientFrame → ℕ → PortService → Type 0
IsFresh (auth given) id s = load id s.server_ctx ≡ none
IsFresh _ id s = Unit

-- One step: a frame of a client, a round of stateCheck, a change of a peer's state, or the end.
pub data Step : PortService → PortService → Type 0 where
  received :
      {s t : PortService} (env : Env) (id : ℕ) (msg : ClientFrame) (channel : ℕ)
      → IsFresh msg id s
      → t ≡ process_client_message env id msg channel s
      → Step s t
  checked : {s t : PortService} (env : Env) → t ≡ state_check env s → Step s t
  changed : {s t : PortService} (mac : ℕ) → t ≡ delete_context mac s → Step s t
  ended : {s t : PortService} → t ≡ stop_service s → Step s t

abbrev pub started : PortService
started = record { server_ctx = []; log = [] }

pub data IsReachable : PortService → Type 0 where
  start : IsReachable started
  step : {s t : PortService} → IsReachable s → Step s t → IsReachable t

-- Keys occur once, and as many ports were opened as were closed and are held.
abbrev pub IsBalanced : PortService → Type 0
IsBalanced s =
    IsUnique s.server_ctx
    × EachUnique s.server_ctx
    × (opens s.log ≡ closes s.log + held s.server_ctx)

note-IsBalanced :
    (es : List Event) (s : PortService)
    → (opens es ≡ 0) × (closes es ≡ 0)
    → IsBalanced s
    → IsBalanced (note es s)
note-IsBalanced es s (a, b) (u, us, even) =
    (u, us, omega (arith, a, b, even, opens-append s.log es, closes-append s.log es))

stop_at-IsBalanced :
    (id : ℕ) (o : Option ServerContext) (s : PortService)
    → load id s.server_ctx ≡ o
    → IsBalanced s
    → IsBalanced (stop_at id o s)
stop_at-IsBalanced id none s e h = h
stop_at-IsBalanced id (some ctx) s e (u, us, even) =
    let (a, b) = stop_context-count ctx in
    (
      IsUnique-delete id s.server_ctx u,
      EachUnique-delete id s.server_ctx us,
      omega (
        arith,
        a,
        b,
        even,
        ap ports_of e,
        held-delete id s.server_ctx u,
        opens-append s.log (stop_context ctx),
        closes-append s.log (stop_context ctx),
      ),
    )

heard-IsBalanced :
    (env : Env) (id : ℕ) (o : Option ServerContext) (s : PortService)
    → load id s.server_ctx ≡ o
    → IsBalanced s
    → IsBalanced (heard env id o s)
heard-IsBalanced env id none s e h = h
heard-IsBalanced env id (some ctx) s e (u, us, even) =
    let ctx' : ServerContext = record ctx { last_receive = env.now } in
    (
      IsUnique-store id ctx' s.server_ctx u,
      EachUnique-store id ctx' s.server_ctx
          (subst PortsUnique e (EachUnique-load id s.server_ctx us)) us,
      omega (arith, even, ap ports_of e, held-store id ctx' s.server_ctx),
    )

passed_to-IsBalanced :
    (env : Env) (id : ℕ) (msg : ClientFrame) (o : Option ServerContext) (s : PortService)
    → load id s.server_ctx ≡ o
    → IsBalanced s
    → IsBalanced (passed_to env id msg o s)
passed_to-IsBalanced env id msg none s e h = h
passed_to-IsBalanced env id msg (some ctx) s e (u, us, even) =
    let ctx0 : ServerContext = record ctx { last_receive = env.now } in
    let ctx' : ServerContext = (process_msg env msg ctx0).0 in
    let es : List Event = (process_msg env msg ctx0).1 in
    let (unique, kept) =
      process_msg-StaysEven env ctx0 (subst PortsUnique e (EachUnique-load id s.server_ctx us))
        msg in
    (
      IsUnique-store id ctx' s.server_ctx u,
      EachUnique-store id ctx' s.server_ctx unique us,
      omega (
        arith,
        even,
        kept,
        ap ports_of e,
        held-store id ctx' s.server_ctx,
        opens-append s.log es,
        closes-append s.log es,
      ),
    )

set_server_handle-IsBalanced :
    (env : Env) (id channel : ℕ) (s : PortService)
    → load id s.server_ctx ≡ none
    → IsBalanced s
    → IsBalanced (set_server_handle env id channel s)
unfolding set_server_handle
set_server_handle-IsBalanced env id channel s e (u, us, even) =
    let ctx : ServerContext = new_server_context env channel in
    (
      IsUnique-store id ctx s.server_ctx u,
      EachUnique-store id ctx s.server_ctx tt us,
      omega (arith, even, ap ports_of e, held-store id ctx s.server_ctx),
    )

module _ (env : Env) (id channel : ℕ) (s : PortService) (h : IsBalanced s) where
  auth-IsBalanced :
      (given : Bool)
      → load id s.server_ctx ≡ none
      → IsBalanced (process_client_message env id (auth given) channel s)
  unfolding process_client_message
  auth-IsBalanced false e = h
  auth-IsBalanced true e = elim (Bool-cases (env.find_peer id)) [
    | inl known ↦ rw known (
        set_server_handle-IsBalanced env id channel (note (sent channel auth_ack ∷ []) s) e
          (note-IsBalanced (sent channel auth_ack ∷ []) s (refl, refl) h))
    | inr unknown ↦ rw unknown h
  ]

  process_client_message-IsBalanced :
      (msg : ClientFrame)
      → IsFresh msg id s
      → IsBalanced (process_client_message env id msg channel s)
  unfolding process_client_message remove_server_handler
  process_client_message-IsBalanced (auth given) e = auth-IsBalanced given e
  process_client_message-IsBalanced un_auth f =
      stop_at-IsBalanced id (load id s.server_ctx) s refl h
  process_client_message-IsBalanced ping f =
      note-IsBalanced (sent channel pong ∷ []) (heard env id (load id s.server_ctx) s) (refl, refl)
        (heard-IsBalanced env id (load id s.server_ctx) s refl h)
  process_client_message-IsBalanced get_port_list f =
      passed_to-IsBalanced env id get_port_list (load id s.server_ctx) s refl h
  process_client_message-IsBalanced other f =
      passed_to-IsBalanced env id other (load id s.server_ctx) s refl h
  process_client_message-IsBalanced (data' d) f =
      passed_to-IsBalanced env id (data' d) (load id s.server_ctx) s refl h
  process_client_message-IsBalanced (open_port o) f =
      passed_to-IsBalanced env id (open_port o) (load id s.server_ctx) s refl h
  process_client_message-IsBalanced (close_port o) f =
      passed_to-IsBalanced env id (close_port o) (load id s.server_ctx) s refl h
  process_client_message-IsBalanced (get_config o) f =
      passed_to-IsBalanced env id (get_config o) (load id s.server_ctx) s refl h

state_check-IsBalanced :
    (env : Env) (s : PortService) → IsBalanced s → IsBalanced (state_check env s)
unfolding state_check
state_check-IsBalanced env s (u, us, even) =
    let (a, b) = stop_silent-count env s.server_ctx in
    let es : List Event = stop_silent env s.server_ctx in
    rw (delete_each-silent_keys env s.server_ctx u) (
      talking-IsUnique env s.server_ctx u,
      talking-EachUnique env s.server_ctx us,
      omega (arith, a, b, even, opens-append s.log es, closes-append s.log es),
    )

close_first-count :
    (o : Option ServerContext) → (opens (close_first o) ≡ 0) × (closes (close_first o) ≡ 0)
close_first-count none = (refl, refl)
close_first-count (some ctx) = (refl, refl)

delete_context-IsBalanced :
    (mac : ℕ) (s : PortService) → IsBalanced s → IsBalanced (delete_context mac s)
unfolding delete_context
delete_context-IsBalanced mac s h =
    let first : List Event = close_first (load mac s.server_ctx) in
    stop_at-IsBalanced mac (load mac s.server_ctx) (note first s) refl
      (note-IsBalanced first s (close_first-count (load mac s.server_ctx)) h)

stop_service-IsBalanced : (s : PortService) → IsBalanced s → IsBalanced (stop_service s)
unfolding stop_service
stop_service-IsBalanced s (u, us, even) =
    let (a, b) = stop_each-count s.server_ctx in
    (
      tt,
      tt,
      omega (
        arith,
        a,
        b,
        even,
        opens-append s.log (stop_each s.server_ctx),
        closes-append s.log (stop_each s.server_ctx),
      ),
    )

Step-IsBalanced : {s t : PortService} → Step s t → IsBalanced s → IsBalanced t
Step-IsBalanced (received {s = s} env id msg channel f e) h =
    subst IsBalanced (sym e) (process_client_message-IsBalanced env id channel s h msg f)
Step-IsBalanced (checked {s = s} env e) h =
    subst IsBalanced (sym e) (state_check-IsBalanced env s h)
Step-IsBalanced (changed {s = s} mac e) h =
    subst IsBalanced (sym e) (delete_context-IsBalanced mac s h)
Step-IsBalanced (ended {s = s} e) h = subst IsBalanced (sym e) (stop_service-IsBalanced s h)

-- In every state that the service can reach by frames of clients, rounds of stateCheck, changes of peers
-- and Stop, as long as no peer registers while it has a context: every key of its maps occurs once, and
-- the ports that were opened are as many as those that were closed and those that contexts hold.
pub IsReachable-IsBalanced : (s : PortService) → IsReachable s → IsBalanced s
IsReachable-IsBalanced s r = go r
  where
    go : {t : PortService} → IsReachable t → IsBalanced t
    go start = (tt, tt, refl)
    go (step r d) = Step-IsBalanced d (go r)

-- In every state that the service can reach, as long as no peer registers while it has a context, Stop
-- leaves no context, and after it as many ports have been closed as were opened. Each port that a context
-- held is among those that Stop closed.
pub stop_service-closes :
    (s : PortService)
    → IsReachable s
    → (opens (stop_service s).log ≡ closes (stop_service s).log)
      × ((stop_service s).server_ctx ≡ [])
      × (es : List Event) × ((stop_service s).log ≡ s.log ++ es)
      × EachClosed es s.server_ctx
unfolding stop_service
stop_service-closes s r =
    let (_, _, even) = stop_service-IsBalanced s (IsReachable-IsBalanced s r) in
    (omega (arith, even), refl, stop_each s.server_ctx, refl, stop_each-EachClosed s.server_ctx)

-- A peer with open ports that registers again loses its context, and the ports stay open: nothing closes
-- them, and no context has them any more.
pub auth_again_leaks :
    (env : Env) (id channel : ℕ) (ctx : ServerContext) (s : PortService)
    → IsReachable s
    → load id s.server_ctx ≡ some ctx
    → env.find_peer id ≡ true
    → let t = process_client_message env id (auth true) channel s in
      opens t.log ≡ closes t.log + held t.server_ctx + length ctx.port_ctx
unfolding process_client_message set_server_handle
auth_again_leaks env id channel ctx s r e known =
    let (u, us, even) = IsReachable-IsBalanced s r in
    let new : ServerContext = new_server_context env channel in
    rw known (
      omega (
        arith,
        even,
        ap ports_of e,
        held-store id new s.server_ctx,
        opens-append s.log (sent channel auth_ack ∷ []),
        closes-append s.log (sent channel auth_ack ∷ []),
      ))
