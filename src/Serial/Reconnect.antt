-- ===== src/Serial/Reconnect.antt =====
-- What becomes of a peer's ports when a connection is made again.
use vilan_peer.Base.{ℕ, ◌≡◌, refl, [], Option, none, some, Option-cases, load, Bool-cases, inl, inr}
use vilan_peer.Serial.Client.{Remote, ClientContext, Clients, Ports, Result, connect_remote}
use vilan_peer.Serial.Calls.{is_ok, with_clients, collected, reopened, re_connect_remote}

collected-none : (o : Option ClientContext) → collected o ≡ []
collected-none none = refl
collected-none (some ctx) = refl

reopened_none :
    (env : Remote) (id : ℕ) (t : Clients × Result) (p : Ports)
    → reopened env id [] t p ≡ (with_clients p t.0, t.1)
reopened_none env id (c, r) p = elim (Bool-cases (is_ok r)) [
  | inl yes' ↦ rw yes' refl
  | inr no' ↦ rw no' refl
]

-- ReConnectRemote does what ConnectRemote does, and nothing more: it reads the ports to open again from
-- the old context after Stop has taken them out, so that no port is ever opened again.
pub re_connect_remote-connect_remote :
    (env : Remote) (id : ℕ) (p : Ports)
    → re_connect_remote env id p
      ≡ (with_clients p (connect_remote env id p.clients).0, (connect_remote env id p.clients).1)
unfolding re_connect_remote connect_remote
re_connect_remote-connect_remote env id p = elim (Bool-cases (env.find_peer id)) [
  | inl known ↦ elim (Option-cases (env.connect id)) [
    | inl refused ↦ rw (known, refused) refl
    | inr (channel, made) ↦
        rw (known, made, collected-none (load id p.clients.client_ctx)) (reopened_none env id _ p)
  ]
  | inr unknown ↦ rw unknown refl
]
