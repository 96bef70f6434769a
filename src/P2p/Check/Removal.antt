-- ===== src/P2p/Check/Removal.antt =====
-- Which established sockets a round of the service's loop takes out.
use vilan_peer.Base.{ℕ, ◌+◌, ◌%◌, ◌^◌, ◌≡◌, ◌≢◌, refl, ap, ◌∙◌, arith, Bool, true, false}
use vilan_peer.Base.{
  List, [], ◌∷◌, Option, none, some, Map, load, delete, load-delete, ◌==◌, ltb, leb,
}
use vilan_peer.Base.{◌||◌, if◌then◌else◌, Bool-cases, inl, inr, ==→eq}
use vilan_peer.P2p.State.{P2p, Env, PeerSock}
use vilan_peer.P2p.Punch.Forward.{save_fail-IsQuiet}
use vilan_peer.P2p.Connect.{send_p2p_try, write_try, try_over}
use vilan_peer.P2p.Check.{
  silent_for, shut_peer, ping_or_drop, check_sock, check_socks, remove_socks,
}
use vilan_peer.P2p.Check.{report_removed, check_try, check_tries, remove_tries, state_check}

-- Three pings without an answer, or no channel to ping on; or silence beyond the configured limit.
abbrev past_pings : PeerSock → Option ℕ → Bool
past_pings v none = true
past_pings v (some h) = leb 3 v.ping_try_count

abbrev pub is_expired : Env → PeerSock → Bool
is_expired env v =
    if ltb ((v.heartbeat + 2) % 2 ^ 32) (silent_for env v)
    then past_pings v v.handler
    else ltb env.config.offline (silent_for env v)

ping_or_drop-flag :
    (env : Env) (r : ℕ) (v : PeerSock) (o : Option ℕ) (s : P2p)
    → (ping_or_drop env r v o s).1 ≡ past_pings v o
ping_or_drop-flag env r v none s = refl
ping_or_drop-flag env r v (some h) s = ground arith

check_sock-flag :
    (env : Env) (r : ℕ) (s : P2p) → (check_sock env r s).1 ≡ is_expired env (s.peers r)
unfolding check_sock
check_sock-flag env r s = ground (arith, ping_or_drop-flag env r (s.peers r) (s.peers r).handler s)

-- A round looks at one context: others are as before, and so are its address and the maps.
abbrev Looks : ℕ → P2p → P2p → Type 0
Looks r s t =
    ((j : ℕ) → r ≢ j → t.peers j ≡ s.peers j)
    × ((j : ℕ) → (t.peers j).peer_mac ≡ (s.peers j).peer_mac)
    × (t.p2p_socks ≡ s.p2p_socks)

Looks-if :
    (r : ℕ) (s : P2p) (b : Bool) (x y : P2p × Bool)
    → Looks r s x.0
    → Looks r s y.0
    → Looks r s (if b then x else y).0
Looks-if r s true x y h k = h
Looks-if r s false x y h k = k

shut_peer-Looks : (r : ℕ) (s : P2p) → Looks r s (shut_peer r s)
shut_peer-Looks r s = ((λ j h. ground arith), (λ j. ground arith), refl)

ping_or_drop-Looks :
    (env : Env) (r : ℕ) (o : Option ℕ) (s : P2p) → Looks r s (ping_or_drop env r (s.peers r) o s).0
ping_or_drop-Looks env r none s = shut_peer-Looks r s
ping_or_drop-Looks env r (some h) s =
    Looks-if r s (leb 3 (s.peers r).ping_try_count) _ _ (shut_peer-Looks r s)
      ((λ j h. ground arith), (λ j. ground arith), refl)

check_sock-Looks : (env : Env) (r : ℕ) (s : P2p) → Looks r s (check_sock env r s).0
unfolding check_sock
check_sock-Looks env r s = Looks-if r s _ _ _ (ping_or_drop-Looks env r (s.peers r).handler s) (
    Looks-if r s (ltb env.config.offline (silent_for env (s.peers r))) _ _ (shut_peer-Looks r s)
      ((λ j h. refl), (λ j. refl), refl))

-- The entries of a map agree with the addresses of their contexts, and no key stands twice.
abbrev pub IsTidy : (ℕ → PeerSock) → Map ℕ → Type 0
IsTidy f [] = Unit {0}
IsTidy f ((k, r) ∷ m) = ((f r).peer_mac ≡ k) × (load k m ≡ none) × IsTidy f m

abbrev expired_refs : Env → (ℕ → PeerSock) → Map ℕ → List ℕ
expired_refs env f [] = []
expired_refs env f ((k, r) ∷ m) =
    let rest = expired_refs env f m in if is_expired env (f r) then r ∷ rest else rest

-- A context whose address is no key of the map is none of its contexts.
expired_refs-frame :
    (env : Env) (r : ℕ) (f g : ℕ → PeerSock) (m : Map ℕ)
    → IsTidy f m
    → load (f r).peer_mac m ≡ none
    → ((j : ℕ) → r ≢ j → g j ≡ f j)
    → expired_refs env g m ≡ expired_refs env f m
unfolding load
expired_refs-frame env r f g [] tidy away same = refl
expired_refs-frame env r f g ((k, j) ∷ m) (key, single, tidy) away same =
    ground (arith, same j, expired_refs-frame env r f g m tidy)

IsTidy-frame :
    (f g : ℕ → PeerSock) (m : Map ℕ)
    → ((j : ℕ) → (g j).peer_mac ≡ (f j).peer_mac)
    → IsTidy f m
    → IsTidy g m
IsTidy-frame f g [] same tidy = tt
IsTidy-frame f g ((k, r) ∷ m) same (key, single, tidy) =
    (same r ∙ key, single, IsTidy-frame f g m same tidy)

-- The Range collects the contexts that were expired when it began.
check_socks-gone :
    (env : Env) (m : Map ℕ) (s : P2p)
    → IsTidy s.peers m
    → (check_socks env m s).1 ≡ expired_refs env s.peers m
unfolding check_socks
check_socks-gone env [] s tidy = refl
check_socks-gone env ((k, r) ∷ m) s (key, single, tidy) =
    let (other, macs, _) = check_sock-Looks env r s in
    let s' : P2p = (check_sock env r s).0 in
    let rest = check_socks-gone env m s' (IsTidy-frame s.peers s'.peers m macs tidy) in
    let same = expired_refs-frame env r s.peers s'.peers m tidy (ground (arith, single)) other in
    rw (check_sock-flag env r s, rest, same)

check_socks-macs :
    (env : Env) (m : Map ℕ) (s : P2p)
    → ((j : ℕ) → ((check_socks env m s).0.peers j).peer_mac ≡ (s.peers j).peer_mac)
      × ((check_socks env m s).0.p2p_socks ≡ s.p2p_socks)
unfolding check_socks
check_socks-macs env [] s = ((λ j. refl), refl)
check_socks-macs env ((k, r) ∷ m) s =
    let (_, macs, socks) = check_sock-Looks env r s in
    let (macs', socks') = check_socks-macs env m (check_sock env r s).0 in
    ((λ j. macs' j ∙ macs j), socks' ∙ socks)

abbrev has_mac : (ℕ → PeerSock) → ℕ → List ℕ → Bool
has_mac f k [] = false
has_mac f k (r ∷ rs) = (f r).peer_mac == k || has_mac f k rs

load-remove_socks :
    (k : ℕ) (rs : List ℕ) (s : P2p)
    → load k (remove_socks rs s).p2p_socks
      ≡ (if has_mac s.peers k rs then none else load k s.p2p_socks)
unfolding remove_socks
load-remove_socks k [] s = refl
load-remove_socks k (r ∷ rs) s = ground (
  arith,
  load-remove_socks k rs (record s { p2p_socks = delete (s.peers r).peer_mac s.p2p_socks }),
  load-delete (s.peers r).peer_mac k s.p2p_socks,
)

has_mac-frame :
    (f g : ℕ → PeerSock) (k : ℕ) (rs : List ℕ)
    → ((j : ℕ) → (g j).peer_mac ≡ (f j).peer_mac)
    → has_mac g k rs ≡ has_mac f k rs
has_mac-frame f g k [] same = refl
has_mac-frame f g k (r ∷ rs) same = ground (arith, same r, has_mac-frame f g k rs same)

abbrev expired_at : Env → (ℕ → PeerSock) → Option ℕ → Bool
expired_at env f none = false
expired_at env f (some r) = is_expired env (f r)

-- In a tidy map a key is deleted if its own context is expired, and only then.
has_mac-expired :
    (env : Env) (f : ℕ → PeerSock) (k : ℕ) (m : Map ℕ)
    → IsTidy f m
    → has_mac f k (expired_refs env f m) ≡ expired_at env f (load k m)
unfolding load
has_mac-expired env f k [] tidy = refl
has_mac-expired env f k ((j, r) ∷ m) (key, single, tidy) =
    let rest = has_mac-expired env f k m tidy in
    elim (Bool-cases (j == k)) [
      | inl same ↦ ground (arith, rest, single, ==→eq j k same)
      | inr other ↦ ground (arith, rest)
    ]

report_removed-socks : (rs : List ℕ) (s : P2p) → (report_removed rs s).p2p_socks ≡ s.p2p_socks
report_removed-socks [] s = refl
report_removed-socks (r ∷ rs) s = refl

write_try-socks :
    (env : Env) (mac r : ℕ) (o : Option ℕ) (s : P2p)
    → (write_try env mac r o s).0.p2p_socks ≡ s.p2p_socks
write_try-socks env mac r none s = refl
write_try-socks env mac r (some h) s = refl

send_p2p_try-socks :
    (env : Env) (mac : ℕ) (s : P2p) → (send_p2p_try env mac s).0.p2p_socks ≡ s.p2p_socks
unfolding send_p2p_try
send_p2p_try-socks env mac s = over (load mac s.p2p_try_socks)
  where
    over : (o : Option ℕ) → (try_over env mac o s).0.p2p_socks ≡ s.p2p_socks
    over none = refl
    over (some r) = write_try-socks env mac r (s.peers r).handler _

check_try-socks : (env : Env) (r : ℕ) (s : P2p) → (check_try env r s).0.p2p_socks ≡ s.p2p_socks
unfolding check_try
check_try-socks env r s = ground (arith, send_p2p_try-socks env (s.peers r).peer_mac s)

check_tries-socks :
    (env : Env) (m : Map ℕ) (s : P2p) → (check_tries env m s).0.p2p_socks ≡ s.p2p_socks
unfolding check_tries
check_tries-socks env [] s = refl
check_tries-socks env ((k, r) ∷ m) s =
    check_tries-socks env m (check_try env r s).0 ∙ check_try-socks env r s

remove_tries-socks :
    (env : Env) (rs : List ℕ) (s : P2p) → (remove_tries env rs s).p2p_socks ≡ s.p2p_socks
unfolding remove_tries
remove_tries-socks env [] s = refl
remove_tries-socks env (r ∷ rs) s =
    remove_tries-socks env rs _ ∙ (save_fail-IsQuiet env (s.peers r).peer_mac s).0.0

-- What a round leaves of the established sockets, by the contexts to be removed.
state_check-loads :
    (env : Env) (k : ℕ) (s : P2p)
    → load k (state_check env s).p2p_socks
      ≡ (if has_mac s.peers k (check_socks env s.p2p_socks s).1 then none else load k s.p2p_socks)
unfolding state_check
state_check-loads env k s =
    let (macs, socks) = check_socks-macs env s.p2p_socks s in
    let s1 : P2p = (check_socks env s.p2p_socks s).0 in
    let gone : List ℕ = (check_socks env s.p2p_socks s).1 in
    rw (remove_tries-socks, check_tries-socks, report_removed-socks, load-remove_socks k gone s1)
      (rw (has_mac-frame s.peers s1.peers k gone macs, socks))

-- What stays of an entry.
abbrev pub kept_at : Env → P2p → Option ℕ → Option ℕ
kept_at env s none = none
kept_at env s (some r) = if is_expired env (s.peers r) then none else some r

-- Where each key of the map occurs once and leads to a context of that MAC, a round of the loop takes out
-- exactly these sockets: of those that are silent for more than the heartbeat and two seconds, the ones
-- with three or more unanswered pings or no channel; of the others, the ones that are silent for longer
-- than the configured limit. Every other peer keeps its socket.
pub state_check-socks :
    (env : Env) (k : ℕ) (s : P2p)
    → IsTidy s.peers s.p2p_socks
    → load k (state_check env s).p2p_socks ≡ kept_at env s (load k s.p2p_socks)
state_check-socks env k s tidy =
    state_check-loads env k s
    ∙ rw (check_socks-gone env s.p2p_socks s tidy, has_mac-expired env s.peers k s.p2p_socks tidy)
        (by_entry (load k s.p2p_socks))
  where
    by_entry : (o : Option ℕ) → (if expired_at env s.peers o then none else o) ≡ kept_at env s o
    by_entry none = refl
    by_entry (some r) = refl

check_socks-one :
    (env : Env) (k r : ℕ) (s : P2p)
    → is_expired env (s.peers r) ≡ true
    → (check_socks env ((k, r) ∷ []) s).1 ≡ r ∷ []
unfolding check_socks
check_socks-one env k r s x = rw (check_sock-flag env r s, x)

load-one : (k r : ℕ) → load k ((k, r) ∷ []) ≡ some r
unfolding load
load-one k r = ground arith

-- A socket that P2PSuccess entered under another address than its own is never taken out: a round
-- of the loop deletes the entry of the wrong address, although the socket is expired and stopped.
pub state_check_foreign :
    (env : Env) (k r : ℕ) (s : P2p)
    → s.p2p_socks ≡ (k, r) ∷ []
    → (s.peers r).peer_mac ≢ k
    → is_expired env (s.peers r) ≡ true
    → load k (state_check env s).p2p_socks ≡ some r
state_check_foreign env k r s e h x =
    let gone = ap (λ m. (check_socks env m s).1) e ∙ check_socks-one env k r s x in
    state_check-loads env k s ∙ rw gone (ground (arith, ap (load k) e ∙ load-one k r))
