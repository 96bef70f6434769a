-- ===== src/Runtime/Auth/Answers.antt =====
-- What an answer to a registration leaves behind.
use vilan_peer.Base.{ℕ, ◌≡◌, inl, inr, refl, Bool, true, false, Option, none, some}
use vilan_peer.Base.{Bool-cases, ==→eq, ◌==◌, if◌then◌else◌}
use vilan_peer.Model.Config.{AppConfig, PeerState, number}
use vilan_peer.Model.Wire.{IpNet}
use vilan_peer.Model.Messages.{AuthAck}
use vilan_peer.Runtime.State.{Runtime, Host, World, Reply, done, set_peer_state}
use vilan_peer.Runtime.Auth.{assign_ip, valid_net, set_mac, set_ip}
use vilan_peer.Tap.{Tap, is_running, is_fine, start_tap}

-- A change that keeps the configuration and the token.
abbrev Keeps : Runtime → Runtime → Type 0
Keeps r t = (t.config ≡ r.config) × (t.server_sock.token ≡ r.server_sock.token)

pub set_peer_state-number :
    (s : PeerState) (r : Runtime) → number (set_peer_state s r).peer_state ≡ number s
unfolding set_peer_state
set_peer_state-number s r = elim (Bool-cases (number r.peer_state == number s)) [
  | inl same ↦ rw same (==→eq _ _ same)
  | inr new ↦ rw new refl
]

-- The group's peers are asked for again: the state stays.
abbrev Asks : Runtime → Runtime → Type 0
Asks r t = Keeps r t × (t.peer_state ≡ r.peer_state)

-- Whether the network card runs after ProcessAuthResponse: it does already, or its start succeeds.
abbrev pub comes_up : Host → AppConfig → Tap → Bool
comes_up host c tap = if is_running tap.state then true else is_fine (start_tap host.os c tap).1

-- StateInitError where the network card does not come up.
abbrev pub state_after : Host → AppConfig → Tap → ℕ → ℕ
state_after host c tap n = if comes_up host c tap then n else 1

-- A start of the network card keeps the configurations; the state stays where the card comes up.
abbrev Started : Host → World → World → Type 0
Started host w t =
    Keeps w.runtime t.runtime
    × (t.app_config ≡ w.app_config)
    × (number t.runtime.peer_state
        ≡ state_after host w.app_config w.tap (number w.runtime.peer_state))

-- An accepted registration: the state is StateOk, or StateInitError where the network card does not
-- start, and both configurations are as the assignments left them.
abbrev pub Accepted : Host → ℕ → World → World × Reply → Type 0
Accepted host token w x =
    (x.1 ≡ done)
    × (x.0.runtime.config ≡ w.runtime.config)
    × (x.0.runtime.server_sock.token ≡ token)
    × (x.0.app_config ≡ w.app_config)
    × (number x.0.runtime.peer_state ≡ state_after host w.app_config w.tap 7)

-- Whether what an answer assigns can be used.
abbrev pub is_usable : AuthAck → Bool
is_usable ack =
    if ack.assign_mac
    then if ack.peer_mac == 0
      then false
      else if ack.assign_ip
      then valid_net ack.peer_addr
      else true
    else if ack.assign_ip
    then valid_net ack.peer_addr
    else true

abbrev net_of : Option IpNet → AppConfig → AppConfig
net_of none c = c
net_of (some net) c = set_ip net c

-- A configuration with what an answer assigns.
abbrev pub assigned : AuthAck → AppConfig → AppConfig
assigned ack c =
    let c' = if ack.assign_mac then set_mac ack.peer_mac c else c in
    if ack.assign_ip then net_of ack.peer_addr c' else c'

abbrev by_net : AuthAck → AppConfig → AppConfig
by_net ack c = if ack.assign_ip then net_of ack.peer_addr c else c

abbrev WithNet : Host → AuthAck → World → World × Reply → Type 0
WithNet host ack w x =
    (x.1 ≡ done)
    × (x.0.runtime.config ≡ by_net ack w.runtime.config)
    × (x.0.runtime.server_sock.token ≡ w.runtime.server_sock.token)
    × (x.0.app_config ≡ by_net ack w.app_config)
    × (number x.0.runtime.peer_state ≡ state_after host (by_net ack w.app_config) w.tap 7)

-- What an answer with these assignments leaves, under the token that is set.
abbrev pub Assigned : Host → AuthAck → ℕ → World → World × Reply → Type 0
Assigned host ack token w x =
    (x.1 ≡ done)
    × (x.0.runtime.config ≡ assigned ack w.runtime.config)
    × (x.0.runtime.server_sock.token ≡ token)
    × (x.0.app_config ≡ assigned ack w.app_config)
    × (number x.0.runtime.peer_state ≡ state_after host (assigned ack w.app_config) w.tap 7)
