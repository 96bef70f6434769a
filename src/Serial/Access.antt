-- ===== src/Serial/Access.antt =====
-- Who may use the ports.
use vilan_peer.Base.{ℕ, ◌≡◌, ◌⊎◌, refl, ap, ◌∙◌, Bool, true, false, Bool-cases, inl, inr}
use vilan_peer.Serial.{
  ClientFrame, auth, is_auth, Env, PortService, process_client_message, process_frame,
}

-- Until a channel has sent an Auth frame, its handler drops whatever else it sends, and stays so.
pub process_frame_unauthorized :
    (env : Env) (id : ℕ) (msg : ClientFrame) (channel : ℕ) (s : PortService)
    → is_auth msg ≡ false
    → process_frame env false id msg channel s ≡ (false, s)
unfolding process_frame
process_frame_unauthorized env id msg channel s h = rw h refl

auth_unknown :
    (env : Env) (unknown : ℕ) (given : Bool) (channel : ℕ) (s : PortService)
    → (env.find_peer unknown ≡ false) ⊎ (given ≡ false)
    → process_client_message env unknown (auth given) channel s ≡ s
unfolding process_client_message
auth_unknown env unknown false channel s h = refl
auth_unknown env unknown true channel s (inl h) = rw h refl
auth_unknown env unknown true channel s (inr h) = cc

process_frame_authorized :
    (env : Env) (id : ℕ) (msg : ClientFrame) (channel : ℕ) (s : PortService)
    → process_frame env true id msg channel s ≡ (true, process_client_message env id msg channel s)
unfolding process_frame
process_frame_authorized env id msg channel s = elim (Bool-cases (is_auth msg)) [
  | inl yes' ↦ rw yes' refl
  | inr no' ↦ rw no' refl
]

-- An Auth frame under an identity that the program does not know, or without its message, registers
-- nobody and still opens the handler: whatever the channel sends next under another identity is processed
-- as a frame of that peer.
pub process_frame_impostor :
    (env : Env) (unknown id : ℕ) (given : Bool) (msg : ClientFrame) (channel : ℕ) (s : PortService)
    → (env.find_peer unknown ≡ false) ⊎ (given ≡ false)
    → let first = process_frame env false unknown (auth given) channel s in
      (first ≡ (true, s))
      × (process_frame env first.0 id msg channel first.1
          ≡ (true, process_client_message env id msg channel s))
unfolding process_frame
process_frame_impostor env unknown id given msg channel s h =
    let kept = auth_unknown env unknown given channel s h in
    (
      ap (λ t. (true, t)) kept,
      ap (process_frame env true id msg channel) kept
          ∙ process_frame_authorized env id msg channel s,
    )
