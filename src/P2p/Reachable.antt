-- ===== src/P2p/Reachable.antt =====
-- The steps of P2pService and of the channels to its peers, in any order, and the states that they lead
-- to. Each step has its own clock and surroundings.
use vilan_peer.Base.{
  ℕ, ◌<◌, ◌≡◌, refl, true, false, List, [], ◌∷◌, Option, none, some, Map, load, store, load-store,
  ==-refl,
}
use vilan_peer.Model.Wire.{DataFrame, P2pTrigger, P2pAck, p2p_try}
use vilan_peer.Address.{is_uni_cast}
use vilan_peer.P2p.State.{P2p, Env, PeerSock, emit, wrote_data}
use vilan_peer.P2p.Owned.{IsOwned, OwnedAt, OwnedAt-load}
use vilan_peer.P2p.Punch.{try_forward_message, process_p2p_trigger, punch_active, hear_punch}
use vilan_peer.P2p.Connect.{
  process_p2p_ack, new_try, peer_state_changed, delete_failed_p2p, reset_p2p_socks, p2p_success,
}
use vilan_peer.P2p.Check.{start, stop, state_check, stop_p2p_sockets}
use vilan_peer.P2p.Handler.{handle_active, handle_read, handle_read_idle, process_msg}
use vilan_peer.P2p.Sound.{
  IsSound, peer_macs, try_forward_message-IsSound, process_p2p_trigger-IsSound, update_same,
  punch_active-IsSound, hear_punch-IsSound,
}
use vilan_peer.P2p.Sound.Connections.{
  process_p2p_ack-IsSound, peer_state_changed-IsSound, reset_p2p_socks-IsSound,
}
use vilan_peer.P2p.Sound.Rounds.{
  start-IsSound, state_check-IsSound, stop_p2p_sockets-IsSound, handle_active-IsSound,
  reads_other-IsSound, reads-IsSound, handle_read_idle-IsSound,
}
use vilan_peer.P2p.Check.Removal.{IsTidy}
use vilan_peer.P2p.Punch.Forward.{try_forward_message_direct, try_forward_message_sends}
use vilan_peer.P2p.State.{set_peer, unix, updated_peers}
use vilan_peer.Base.{ap, ◌∙◌, subst}

-- The service before its first start.
abbrev pub fresh : P2p
fresh = record {
  running = false;
  cancel_func = false;
  p2p_failed_time = 0;
  punch_socks = [];
  p2p_try_socks = [];
  p2p_socks = [];
  his_p2p_fail_info = [];
  peers = new_try;
  punches = λ r. record {
    peer_mac = r;
    handler = none;
    local_sock = none;
    start_time = 0;
    last_receive = 0;
    connected = false;
  };
  next_ref = 0;
  log = [];
}

-- A data frame that a channel reads is of the peer whose context the channel has.
pub data Step (s : P2p) : P2p → Type 0 where
  starts : (env : Env) → Step s (start env s)
  stops : Step s (stop s).0
  ends : Step s (stop_p2p_sockets s)
  checks : (env : Env) → Step s (state_check env s)
  forwards : (env : Env) (mac : ℕ) (msg : DataFrame) → Step s (try_forward_message env mac msg s).0
  triggered : (env : Env) (msg : Option P2pTrigger) → Step s (process_p2p_trigger env msg s).0
  acknowledged : (env : Env) (msg : Option P2pAck) → Step s (process_p2p_ack env msg s).0
  punch_opens : (env : Env) (r channel : ℕ) → Step s (punch_active env r channel s)
  punch_hears : (env : Env) (r channel : ℕ) → Step s (hear_punch env r channel s)
  changed : (mac : ℕ) → Step s (peer_state_changed mac s)
  forgets : (mac : ℕ) → Step s (delete_failed_p2p mac s)
  resets : Step s (reset_p2p_socks s)
  active : (env : Env) (r channel : ℕ) → Step s (handle_active env r channel s)
  reads_other : (env : Env) (r channel : ℕ) → Step s (handle_read env r channel none s).0
  reads :
      (env : Env) (r channel : ℕ) (msg : DataFrame)
      → (s.peers r).peer_mac ≡ msg.src_mac
      → r < s.next_ref
      → Step s (handle_read env r channel (some msg) s).0
  idle : (env : Env) (r : ℕ) → Step s (handle_read_idle env r s)

pub data IsReachable : P2p → Type 0 where
  here : IsReachable fresh
  next : {s t : P2p} → IsReachable s → Step s t → IsReachable t

Step-IsSound : {s t : P2p} → Step s t → IsSound s → IsSound t
unfolding stop delete_failed_p2p
Step-IsSound {s} (starts env) h = start-IsSound env s h
Step-IsSound {s} stops h = h
Step-IsSound {s} ends h = stop_p2p_sockets-IsSound s h
Step-IsSound {s} (checks env) h = state_check-IsSound env s h
Step-IsSound {s} (forwards env mac msg) h = try_forward_message-IsSound env mac msg s h
Step-IsSound {s} (triggered env msg) h = process_p2p_trigger-IsSound env msg s h
Step-IsSound {s} (acknowledged env msg) h = process_p2p_ack-IsSound env msg s h
Step-IsSound {s} (punch_opens env r channel) h = punch_active-IsSound env r channel s h
Step-IsSound {s} (punch_hears env r channel) h = hear_punch-IsSound env r channel s h
Step-IsSound {s} (changed mac) h = peer_state_changed-IsSound mac s h
Step-IsSound {s} (forgets mac) h = h
Step-IsSound {s} resets h = reset_p2p_socks-IsSound s h
Step-IsSound {s} (active env r channel) h = handle_active-IsSound env r channel s h
Step-IsSound {s} (reads_other env r channel) h = reads_other-IsSound env r channel s h
Step-IsSound {s} (reads env r channel msg own low) h =
    reads-IsSound env r channel msg s (own, low) h
Step-IsSound {s} (idle env r) h = handle_read_idle-IsSound env r s h

-- In every state that the service can come to, while peers send their frames under their own MAC, each
-- of its maps has a key at most once, and leads from a MAC to a context of that MAC, one that was made:
-- the established sockets, the try sockets and the punch sockets.
pub IsReachable-IsSound : {s : P2p} → IsReachable s → IsSound s
IsReachable-IsSound here = (tt, tt, tt)
IsReachable-IsSound (next r st) = Step-IsSound st (IsReachable-IsSound r)

IsOwned-IsTidy :
    (f : ℕ → PeerSock) (n : ℕ) (m : Map ℕ) → IsOwned (λ r. (f r).peer_mac) n m → IsTidy f m
IsOwned-IsTidy f n [] h = tt
IsOwned-IsTidy f n ((k, r) ∷ m) (own, low, single, h) = (own, single, IsOwned-IsTidy f n m h)

pub IsReachable-IsTidy : {s : P2p} → IsReachable s → IsTidy s.peers s.p2p_socks
IsReachable-IsTidy {s} h = IsOwned-IsTidy s.peers s.next_ref s.p2p_socks (IsReachable-IsSound h).0

-- In every state that the service can come to, while peers send their frames under their own MAC, a frame
-- that counts as sent directly was written once, to the channel of a context
-- of the MAC that the frame goes to, and nothing else happened.
pub try_forward_message-IsReachable :
    (env : Env) (mac : ℕ) (msg : DataFrame) (s : P2p)
    → IsReachable s
    → (try_forward_message env mac msg s).1 ≡ true
    → (r : ℕ) × (channel : ℕ) × ((s.peers r).peer_mac ≡ mac)
      × ((s.peers r).handler ≡ some channel)
      × ((try_forward_message env mac msg s).0 ≡ emit (wrote_data channel msg) s)
try_forward_message-IsReachable env mac msg s h sent =
    let (r, channel, on, uni, e, k, log) = try_forward_message_direct env mac msg s sent in
    let at = OwnedAt-load (peer_macs s) s.next_ref mac s.p2p_socks (IsReachable-IsSound h).0 in
    (r, channel, (subst (OwnedAt (peer_macs s) s.next_ref mac) e at).0, k, log)

-- The state after a try that is answered from the sender's own context.
abbrev taken_over : Env → ℕ → ℕ → DataFrame → P2p → P2p
taken_over env r channel msg s =
    let v : PeerSock = record (s.peers r) {
      handler = some channel;
      last_receive = unix env;
      ping_try_count = 0;
    } in
    let s' = set_peer r v s in
    emit updated_peers (record s' { p2p_socks = store msg.src_mac r s'.p2p_socks })

handle_read_try :
    (env : Env) (r channel : ℕ) (msg : DataFrame) (s : P2p)
    → msg.msg_type ≡ p2p_try
    → load msg.src_mac s.p2p_try_socks ≡ none
    → (handle_read env r channel (some msg) s).0 ≡ taken_over env r channel msg s
unfolding handle_read process_msg p2p_success
handle_read_try env r channel msg s kind no_try = rw (kind, no_try) refl

-- The frames that the service forwards to a MAC, one after the other.
unfoldable pub forward_each : Env → ℕ → List DataFrame → P2p → P2p
forward_each env mac [] s = s
forward_each env mac (m ∷ ms) s = forward_each env mac ms (try_forward_message env mac m s).0

abbrev pub emit_each : ℕ → List DataFrame → P2p → P2p
emit_each channel [] s = s
emit_each channel (m ∷ ms) s = emit_each channel ms (emit (wrote_data channel m) s)

forward_each-emit_each :
    (env : Env) (mac r channel : ℕ) (ms : List DataFrame) (s : P2p)
    → s.running ≡ true
    → is_uni_cast mac ≡ true
    → load mac s.p2p_socks ≡ some r
    → (s.peers r).handler ≡ some channel
    → forward_each env mac ms s ≡ emit_each channel ms s
unfolding forward_each
forward_each-emit_each env mac r channel [] s on uni at by = refl
forward_each-emit_each env mac r channel (m ∷ ms) s on uni at by =
    rw (try_forward_message_sends env mac m s r channel on uni at by)
      (forward_each-emit_each env mac r channel ms (emit (wrote_data channel m) s) on uni at by)

-- A peer that sends a try under the MAC of another takes over what is sent to that other, where there is
-- no try socket for it: the frames for that MAC that the running service forwards next, with nothing else
-- between them, each go to the sender's own channel, whoever the sender's context belongs to and whether
-- the other peer was connected before or not.
pub try_forward_message-handle_read :
    (env later : Env) (r channel : ℕ) (msg : DataFrame) (outs : List DataFrame) (s : P2p)
    → s.running ≡ true
    → msg.msg_type ≡ p2p_try
    → is_uni_cast msg.src_mac ≡ true
    → load msg.src_mac s.p2p_try_socks ≡ none
    → let t = (handle_read env r channel (some msg) s).0 in
      forward_each later msg.src_mac outs t ≡ emit_each channel outs t
try_forward_message-handle_read env later r channel msg outs s on kind uni no_try =
    rw (handle_read_try env r channel msg s kind no_try) (
      forward_each-emit_each later msg.src_mac r channel outs (taken_over env r channel msg s) on
        uni (load-store msg.src_mac msg.src_mac r s.p2p_socks ∙ rw (==-refl msg.src_mac) refl)
        (ap (λ v. v.handler)
          (update_same s.peers r (record (s.peers r) {
            handler = some channel;
            last_receive = unix env;
            ping_try_count = 0;
          }))))
