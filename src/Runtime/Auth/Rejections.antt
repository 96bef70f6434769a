-- ===== src/Runtime/Auth/Rejections.antt =====
-- What a refused registration leaves behind.
use vilan_peer.Base.{
  ℕ, ◌≡◌, ◌≢◌, ◌⊎◌, inl, inr, refl, subst, sym, ap, Bool, true, false, Bool-cases, ◌==◌,
}
use vilan_peer.Base.{ℤ, pos, negsuc, if◌then◌else◌}
use vilan_peer.Model.Config.{number, PeerState}
use vilan_peer.Model.Messages.{AuthAck}
use vilan_peer.Runtime.State.{Error, failed, bad_ip, bad_mac, rejected, Host, World, Reply}
use vilan_peer.Runtime.Auth.{
  on_runtime, process_auth_response, accepted, refuse, assign_ip, by_result, set_token, extern_from,
  valid_net, both_configs, set_mac,
}
use vilan_peer.Runtime.Auth.Answers.{is_usable, set_peer_state-number}
use vilan_peer.Base.{some}

-- A registration that failed: StateAuthFail, with the direct sockets and the network card as they
-- were.
abbrev pub Rejected : World → World × Reply → Type 0
Rejected w x =
    ((e : Error) × (x.1 ≡ failed e))
    × (number x.0.runtime.peer_state ≡ 6)
    × (x.0.p2p ≡ w.p2p)
    × (x.0.tap ≡ w.tap)

differ : true ≢ false
differ e = cc

refuse-Rejected : (e : Error) (w : World) → Rejected w (refuse e w)
refuse-Rejected e w = ((e, refl), set_peer_state-number PeerState.auth_fail w.runtime, refl, refl)

assign_ip-Rejected :
    (host : Host) (ack : AuthAck) (changed : Bool) (w : World)
    → (if ack.assign_ip then valid_net ack.peer_addr else true) ≡ false
    → Rejected w (assign_ip host ack changed w)
assign_ip-Rejected host ack changed w h = elim (Bool-cases ack.assign_ip) [
  | inl e ↦
      rw (e, subst (λ b. (if b then valid_net ack.peer_addr else true) ≡ false) e h)
        (refuse-Rejected bad_ip w)
  | inr e ↦ absurd (assigns e)
]
  where
    assigns : ack.assign_ip ≢ false
    assigns none_given =
        differ (subst (λ b. (if b then valid_net ack.peer_addr else true) ≡ false) none_given h)

accepted-Rejected :
    (host : Host) (ack : AuthAck) (w : World)
    → is_usable ack ≡ false
    → Rejected w (accepted host ack w)
accepted-Rejected host ack w useless = elim (Bool-cases ack.assign_mac) [
  | inl e ↦ elim (Bool-cases (ack.peer_mac == 0)) [
    | inl none_given ↦ rw (e, none_given) (refuse-Rejected bad_mac w)
    | inr given ↦
        rw (e, given)
          (assign_ip-Rejected host ack true (both_configs (set_mac ack.peer_mac) w)
            (subst (λ b. b ≡ false) (rw (e, given) refl) useless))
  ]
  | inr e ↦ rw e (assign_ip-Rejected host ack false w (subst (λ b. b ≡ false) (rw e refl) useless))
]

-- An answer with a negative result, or whose assignments cannot be used, ends with an error in
-- StateAuthFail; the direct sockets and the network card stay as they were.
pub process_auth_response_rejects :
    (host : Host) (ack : AuthAck) (w : World)
    → ((n : ℕ) × (ack.auth_res ≡ negsuc n)) ⊎ (is_usable ack ≡ false)
    → Rejected w (process_auth_response host (some ack) w)
unfolding process_auth_response
process_auth_response_rejects host ack w (inl (n, e)) =
    subst (Rejected w) (sym (ap (λ z. by_result host ack z heard) e))
      (refuse-Rejected rejected heard)
  where
    heard : World
    heard = on_runtime (extern_from ack.sock) w
process_auth_response_rejects host ack w (inr useless) = over ack.auth_res
  where
    heard : World
    heard = on_runtime (extern_from ack.sock) w

    over : (z : ℤ) → Rejected w (by_result host ack z heard)
    over (pos n) = accepted-Rejected host ack (on_runtime (set_token ack.token) heard) useless
    over (negsuc n) = refuse-Rejected rejected heard
