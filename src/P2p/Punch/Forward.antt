-- ===== src/P2p/Punch/Forward.antt =====
-- Where a frame from the virtual network card goes.
use vilan_peer.Base.{ℕ, ◌≡◌, refl, Bool, true, false, List, [], ◌∷◌, ◌++◌, Option, none, some, load}
use vilan_peer.Base.{◌⊎◌, inl, inr, arith, not, if◌then◌else◌}
use vilan_peer.Model.Wire.{DataFrame}
use vilan_peer.Address.{is_uni_cast}
use vilan_peer.P2p.State.{P2p, Env, wrote_data, stopped_punch, emit}
use vilan_peer.P2p.Punch.{is_need_p2p, start_punch, new_punch_sock, save_fail_punch_info}
use vilan_peer.P2p.Punch.{is_fresh, try_forward_message, stop_punch, connected_punch, got_local}
use vilan_peer.P2p.Punch.{punch_over, local_sock_of, send_direct, forward_over}
use vilan_peer.Address.{extract_addr_from_str}
use vilan_peer.Model.Wire.{Sock}
use vilan_peer.Base.{Bool-cases}

-- A frame counts as sent to the peer itself only if the service runs, the address is of one
-- station, and the peer has an established socket with a channel; then the frame is written to that
-- channel once, and nothing else happens.
pub try_forward_message_direct :
    (env : Env) (mac : ℕ) (msg : DataFrame) (s : P2p)
    → (try_forward_message env mac msg s).1 ≡ true
    → (r : ℕ) × (h : ℕ) × (s.running ≡ true)
      × (is_uni_cast mac ≡ true)
      × (load mac s.p2p_socks ≡ some r)
      × ((s.peers r).handler ≡ some h)
      × ((try_forward_message env mac msg s).0 ≡ emit (wrote_data h msg) s)
unfolding try_forward_message
try_forward_message_direct env mac msg s e = ground arith

-- With a channel to the peer the frame is sent.
pub try_forward_message_sends :
    (env : Env) (mac : ℕ) (msg : DataFrame) (s : P2p) (r h : ℕ)
    → s.running ≡ true
    → is_uni_cast mac ≡ true
    → load mac s.p2p_socks ≡ some r
    → (s.peers r).handler ≡ some h
    → try_forward_message env mac msg s ≡ (emit (wrote_data h msg) s, true)
unfolding try_forward_message
try_forward_message_sends env mac msg s r h run uni e k = ground arith

-- What a call may do to the log: nothing, or stop one punch socket.
abbrev pub StopsAtMost : P2p → P2p → Type 0
StopsAtMost s t = (t.log ≡ s.log) ⊎ ((r : ℕ) × (t.log ≡ s.log ++ (stopped_punch r ∷ [])))

-- A call that leaves the sockets to peers alone.
abbrev pub KeepsPeers : P2p → P2p → Type 0
KeepsPeers s t =
    (t.p2p_socks ≡ s.p2p_socks)
    × (t.p2p_try_socks ≡ s.p2p_try_socks)
    × (t.peers ≡ s.peers)
    × (t.running ≡ s.running)

abbrev pub IsQuiet : P2p → P2p → Type 0
IsQuiet s t = KeepsPeers s t × StopsAtMost s t

unchanged : (s : P2p) → IsQuiet s s
unchanged s = ((refl, refl, refl, refl), inl refl)

stop_punch-IsQuiet : (o : Option ℕ) (s : P2p) → IsQuiet s (stop_punch o s)
stop_punch-IsQuiet none s = ((refl, refl, refl, refl), inl refl)
stop_punch-IsQuiet (some r) s = ((refl, refl, refl, refl), inr (r, refl))

pub save_fail-IsQuiet : (env : Env) (mac : ℕ) (s : P2p) → IsQuiet s (save_fail_punch_info env mac s)
unfolding save_fail_punch_info
save_fail-IsQuiet env mac s = stop_punch-IsQuiet (load mac s.punch_socks) _

connected-IsQuiet :
    (env : Env) (mac r : ℕ) (o : Option (List ℕ)) (s : P2p)
    → IsQuiet s (connected_punch env mac r o s).0
connected-IsQuiet env mac r none s = save_fail-IsQuiet env mac s
connected-IsQuiet env mac r (some addr) s =
    got_local-IsQuiet r (local_sock_of (extract_addr_from_str env.little_endian addr)) s
  where
    got_local-IsQuiet : (r : ℕ) (o : Option Sock) (s : P2p) → IsQuiet s (got_local r o s).0
    got_local-IsQuiet r none s = ((refl, refl, refl, refl), inl refl)
    got_local-IsQuiet r (some sock) s = ((refl, refl, refl, refl), inl refl)

start_punch-IsQuiet : (env : Env) (mac : ℕ) (s : P2p) → IsQuiet s (start_punch env mac false s).0
unfolding start_punch new_punch_sock
start_punch-IsQuiet env mac s = over (load mac s.punch_socks)
  where
    over : (o : Option ℕ) → IsQuiet s (punch_over env mac false o s).0
    over none = connected-IsQuiet env mac s.next_ref (env.connect s.next_ref) _
    over (some r) = elim (Bool-cases (is_fresh env (s.punches r) s)) [
      | inl fresh ↦ rw fresh ((refl, refl, refl, refl), inl refl)
      | inr old ↦ rw old ((refl, refl, refl, refl), inr (r, refl))
    ]

-- A call that leaves the frame to the server is quiet.
abbrev Relays : P2p → P2p × Bool → Type 0
Relays s x = x.1 ≡ false → IsQuiet s x.0

Relays-if :
    (s : P2p) (b : Bool) (x y : P2p × Bool)
    → Relays s x
    → Relays s y
    → Relays s (if b then x else y)
Relays-if s true x y h k = h
Relays-if s false x y h k = k

send_direct-Relays : (s : P2p) (o : Option ℕ) (msg : DataFrame) → Relays s (send_direct o msg s)
send_direct-Relays s none msg e = unchanged s
send_direct-Relays s (some h) msg e = cc

forward_over-Relays :
    (env : Env) (mac : ℕ) (msg : DataFrame) (o : Option ℕ) (s : P2p)
    → Relays s (forward_over env mac msg o s)
forward_over-Relays env mac msg (some r) s = send_direct-Relays s (s.peers r).handler msg
forward_over-Relays env mac msg none s =
    Relays-if s (is_need_p2p env mac s) _ _ (λ _. start_punch-IsQuiet env mac s) (λ _. unchanged s)

-- A frame that is left to the server has written no message and has touched no established or try
-- socket: at most one punch socket was stopped, on the way to a later direct connection.
pub try_forward_message_relayed :
    (env : Env) (mac : ℕ) (msg : DataFrame) (s : P2p)
    → (try_forward_message env mac msg s).1 ≡ false
    → IsQuiet s (try_forward_message env mac msg s).0
unfolding try_forward_message
try_forward_message_relayed env mac msg s =
    Relays-if s (not s.running) _ _ (λ _. unchanged s)
      (Relays-if s (not (is_uni_cast mac)) _ _ (λ _. unchanged s)
        (forward_over-Relays env mac msg (load mac s.p2p_socks) s))

-- Broadcast and multicast frames are left to the server, and start nothing.
pub try_forward_message_group :
    (env : Env) (mac : ℕ) (msg : DataFrame) (s : P2p)
    → is_uni_cast mac ≡ false
    → try_forward_message env mac msg s ≡ (s, false)
unfolding try_forward_message
try_forward_message_group env mac msg s e = ground arith
