-- ===== src/Runtime/Send/Guards.antt =====
-- When the service sends a request to the server, and when it refuses to.
use vilan_peer.Base.{ℕ, ◌≡◌, ◌⊎◌, inl, inr, refl, subst, sym, ap, ◌∙◌, true, false, [], ◌∷◌, ◌++◌}
use vilan_peer.Base.{Bool-cases, none, some, String, if◌then◌else◌}
use vilan_peer.Model.Messages.{Config, PeerFrame, PeerBody}
use vilan_peer.Runtime.State.{Runtime, Host, Reply, failed, done, Error, not_connected, unconnected}
use vilan_peer.Runtime.State.{no_handler, sent, emit}
use vilan_peer.Runtime.Send.{
  guarded, on_channel, frame, write_body, send_auth_request, send_un_auth, send_ping, send_config,
}
use vilan_peer.P2p.Connect.{clear_map}
use vilan_peer.Runtime.Send.{send_group_peers_request, send_peer_links_request}

-- The state is as before, and the call has failed.
abbrev pub Refuses : Runtime → Runtime × Reply → Type 0
Refuses r x = (e : Error) × (x ≡ (r, failed e))

guarded-Refuses :
    (send : ℕ → Runtime → Runtime) (r : Runtime)
    → (not_connected r ≡ true) ⊎ (r.server_sock.handler ≡ none)
    → Refuses r (guarded send r)
guarded-Refuses send r (inl e) = (unconnected, rw e refl)
guarded-Refuses send r (inr e) = elim (Bool-cases (not_connected r)) [
  | inl down ↦ (unconnected, rw down refl)
  | inr up ↦ (no_handler, rw up (ap (λ o. on_channel send o r) e))
]

-- Without a connection, or without a channel, every request to the server fails and leaves the
-- service as it was: nothing is sent, no known peer is forgotten, no caller waits.
pub requests-Refuses :
    (host : Host) (r : Runtime) (group : String) (mac : ℕ) (conf : Config) (caller : ℕ)
    → (not_connected r ≡ true) ⊎ (r.server_sock.handler ≡ none)
    → Refuses r (send_auth_request host r)
      × Refuses r (send_un_auth r)
      × Refuses r (send_ping host r)
      × Refuses r (send_group_peers_request group r)
      × Refuses r (send_peer_links_request mac r)
      × Refuses r (send_config conf caller r)
unfolding send_auth_request send_un_auth send_ping send_group_peers_request send_peer_links_request
    send_config
requests-Refuses host r group mac conf caller h = (
  guarded-Refuses _ r h,
  guarded-Refuses _ r h,
  guarded-Refuses _ r h,
  guarded-Refuses _ r h,
  guarded-Refuses _ r h,
  guarded-Refuses _ r h,
)

-- One frame on channel `h` with the peer's address and token, and no error.
abbrev pub SendsOne : ℕ → Runtime → Runtime × Reply → Type 0
SendsOne h r x =
    (x.1 ≡ done)
    × (m : PeerFrame) × (m.peer_mac ≡ r.config.tap_config.hw_mac)
    × (m.token ≡ r.server_sock.token)
    × (x.0.log ≡ r.log ++ (sent h m ∷ []))

abbrev pub Connected : ℕ → Runtime → Type 0
Connected h r = (not_connected r ≡ false) × (r.server_sock.handler ≡ some h) × (r.running ≡ true)

guarded_sends :
    (send : ℕ → Runtime → Runtime) (r : Runtime) (h : ℕ)
    → Connected h r
    → guarded send r ≡ (send h r, done)
guarded_sends send r h (up, e, run) = rw up (ap (λ o. on_channel send o r) e)

write_body-log :
    (body : PeerBody) (r : Runtime) (h : ℕ)
    → r.running ≡ true
    → write_body body h r ≡ emit (sent h (frame body r)) r
write_body-log body r h run = ap (λ b. if b then emit (sent h (frame body r)) r else r) run

SendsOne-guarded :
    (send : ℕ → Runtime → Runtime) (r : Runtime) (h : ℕ)
    → Connected h r
    → SendsOne h r (send h r, done)
    → SendsOne h r (guarded send r)
SendsOne-guarded send r h up one = subst (SendsOne h r) (sym (guarded_sends send r h up)) one

SendsOne-write :
    (body : PeerBody) (r t : Runtime) (h : ℕ)
    → r.running ≡ true
    → t ≡ write_body body h r
    → SendsOne h r (t, done)
SendsOne-write body r t h run e =
    (refl, frame body r, refl, refl, ap (λ u. u.log) (e ∙ write_body-log body r h run))

-- The request for the links of a peer is one frame, and no other change.
pub send_peer_links_request-emit :
    (mac : ℕ) (r : Runtime) (h : ℕ)
    → Connected h r
    → send_peer_links_request mac r ≡ (
      emit
          (sent h (
            frame
              (PeerBody.links_request
                record { src_mac = r.config.tap_config.hw_mac; dst_mac = mac })
              r))
          r,
      done,
    )
unfolding send_peer_links_request
send_peer_links_request-emit mac r h (up, e, run) =
    guarded_sends _ r h (up, e, run) ∙ ap (λ t. (t, done)) (write_body-log _ r h run)

-- A running service with a connection and a channel to the server sends one frame on that channel
-- for each request, with its own address and the token of its registration.
pub requests-SendsOne :
    (r : Runtime) (h : ℕ) (group : String) (mac : ℕ) (conf : Config) (caller : ℕ)
    → not_connected r ≡ false
    → r.server_sock.handler ≡ some h
    → r.running ≡ true
    → SendsOne h r (send_un_auth r)
      × SendsOne h r (send_group_peers_request group r)
      × SendsOne h r (send_peer_links_request mac r)
      × SendsOne h r (send_config conf caller r)
unfolding send_un_auth send_group_peers_request send_peer_links_request send_config
requests-SendsOne r h group mac conf caller up e run = (
  SendsOne-guarded _ r h (up, e, run) (SendsOne-write _ r _ h run refl),
  SendsOne-guarded _ r h (up, e, run)
      (
        refl,
        _,
        refl,
        refl,
        ap (λ u. u.log)
            (write_body-log _ (record r { group_peers = clear_map r.group_peers }) h run),
      ),
  SendsOne-guarded _ r h (up, e, run) (SendsOne-write _ r _ h run refl),
  SendsOne-guarded _ r h (up, e, run)
      (refl, _, refl, refl, ap (λ u. u.log) (write_body-log (PeerBody.config conf) r h run)),
)
