-- ===== src/Serial/Round.antt =====
-- The round of stateCheck in serial/serial_service.go over the connections to other peers.
use vilan_peer.Base.{
  ℕ, ◌-◌, ◌≡◌, refl, arith, Bool, true, List, [], ◌∷◌, ◌++◌, Option, none, some, Map, load, delete,
  load-delete, ltb, false, sym, ◌∙◌, ◌==◌, if◌then◌else◌, Bool-cases, inl, inr,
}
use vilan_peer.Serial.{Event, Env, state_check}
use vilan_peer.Serial.Client.{ClientContext, Clients, Ports, stop_client, did}

abbrev pub is_silent_client : ℕ → ClientContext → Bool
is_silent_client now ctx = ltb 65 (now - ctx.last_receive)

-- What the silent ones do when they stop.
abbrev stop_silent_clients : ℕ → Map ClientContext → List Event
stop_silent_clients now [] = []
stop_silent_clients now ((id, ctx) ∷ m) =
    let rest = stop_silent_clients now m in
    if is_silent_client now ctx then stop_client ctx ++ rest else rest

abbrev silent_clients : ℕ → Map ClientContext → List ℕ
silent_clients now [] = []
silent_clients now ((id, ctx) ∷ m) =
    let rest = silent_clients now m in if is_silent_client now ctx then id ∷ rest else rest

abbrev delete_clients : List ℕ → Map ClientContext → Map ClientContext
delete_clients [] m = m
delete_clients (k ∷ ks) m = delete_clients ks (delete k m)

-- One round of stateCheck over the connections to other peers.
unfoldable pub check_clients : ℕ → Clients → Clients
check_clients now c = record (did (stop_silent_clients now c.client_ctx) c) {
  client_ctx = delete_clients (silent_clients now c.client_ctx) c.client_ctx;
}

-- One round of stateCheck.
unfoldable pub check_both : Env → Ports → Ports
check_both env p = record {
  server = state_check env p.server;
  clients = check_clients env.now p.clients;
}

load-delete_absent :
    (k j : ℕ) (m : Map ClientContext) → load k m ≡ none → load k (delete j m) ≡ none
load-delete_absent k j m e = elim (Bool-cases (j == k)) [
  | inl same ↦ rw (load-delete j k m, same) refl
  | inr apart ↦ rw (load-delete j k m, apart) e
]

load-delete_clients_absent :
    (k : ℕ) (ks : List ℕ) (m : Map ClientContext)
    → load k m ≡ none
    → load k (delete_clients ks m) ≡ none
load-delete_clients_absent k [] m e = e
load-delete_clients_absent k (j ∷ js) m e =
    load-delete_clients_absent k js (delete j m) (load-delete_absent k j m e)

-- Whether there is a client, and it is silent.
abbrev pub is_silent_at : ℕ → Option ClientContext → Bool
is_silent_at now none = false
is_silent_at now (some ctx) = is_silent_client now ctx

load-delete_same : (k j : ℕ) (m : Map ClientContext) → (j == k) ≡ true → load k (delete j m) ≡ none
load-delete_same k j m same = rw (load-delete j k m, same) refl

silent_head :
    (now k j : ℕ) (first : ClientContext) (m : Map ClientContext)
    → (j == k) ≡ true
    → is_silent_at now (load k ((j, first) ∷ m)) ≡ is_silent_client now first
unfolding load
silent_head now k j first m same = rw same refl

silent_tail :
    (now k j : ℕ) (first : ClientContext) (m : Map ClientContext)
    → (j == k) ≡ false
    → is_silent_at now (load k ((j, first) ∷ m)) ≡ is_silent_at now (load k m)
unfolding load
silent_tail now k j first m apart = rw apart refl

load-delete_clients :
    (now k : ℕ) (m0 m : Map ClientContext)
    → is_silent_at now (load k m0) ≡ true
    → load k (delete_clients (silent_clients now m0) m) ≡ none
unfolding load
load-delete_clients now k [] m silent = absurd (ground (arith, silent))
load-delete_clients now k ((j, first) ∷ m0) m silent = elim (Bool-cases (j == k)) [
  | inl same ↦ rw (sym (silent_head now k j first m0 same) ∙ silent) (
      load-delete_clients_absent k (silent_clients now m0) (delete j m)
        (load-delete_same k j m same))
  | inr apart ↦
      let below = sym (silent_tail now k j first m0 apart) ∙ silent in
      elim (Bool-cases (is_silent_client now first)) [
        | inl yes' ↦ rw yes' (load-delete_clients now k m0 (delete j m) below)
        | inr no' ↦ rw no' (load-delete_clients now k m0 m below)
      ]
]

-- One round of stateCheck: a connection to a peer that was not heard of for more than 65 seconds is
-- gone from the clients.
pub load-check_both :
    (env : Env) (p : Ports) (id : ℕ)
    → is_silent_at env.now (load id p.clients.client_ctx) ≡ true
    → load id (check_both env p).clients.client_ctx ≡ none
unfolding check_both check_clients
load-check_both env p id silent =
    load-delete_clients env.now id p.clients.client_ctx p.clients.client_ctx silent
