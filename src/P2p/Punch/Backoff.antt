-- ===== src/P2p/Punch/Backoff.antt =====
-- After failures the service waits before it tries a peer again, and in the end gives up.
use vilan_peer.Base.{ℕ, suc, ◌+◌, ◌^◌, ◌≤◌, ◌<◌, ◌≡◌, refl, arith}
use vilan_peer.Base.{true, false, List, [], ◌∷◌, Option, none, some, load, store, length}
use vilan_peer.Base.{map_laws, load-store, ◌==◌, if◌then◌else◌}
use vilan_peer.Address.{is_uni_cast}
use vilan_peer.P2p.State.{P2p, Env, PunchFail, done, unix}
use vilan_peer.P2p.Punch.{one_more_failure, save_fail_punch_info, seconds_since}
use vilan_peer.P2p.State.{update}
use vilan_peer.Model.Wire.{Sock, DataFrame}
use vilan_peer.Address.{extract_addr_from_str}
use vilan_peer.Base.{◌∙◌, ap, Bool-cases, inl, inr}
use vilan_peer.P2p.Punch.{connected_punch, got_local, local_sock_of}
use vilan_peer.P2p.Punch.{try_forward_message, is_need_p2p, start_punch, new_punch_sock, new_punch}

-- The state in which newPunchSock connects.
abbrev registered : Env → ℕ → P2p → P2p
registered env mac s =
    let r = s.next_ref in
    record s {
      next_ref = suc r;
      punches = update s.punches r (new_punch env mac);
      punch_socks = store mac r s.punch_socks;
    }

start_punch_new :
    (env : Env) (mac : ℕ) (s : P2p)
    → load mac s.punch_socks ≡ none
    → start_punch env mac false s
      ≡ connected_punch env mac s.next_ref (env.connect s.next_ref) (registered env mac s)
unfolding start_punch new_punch_sock
start_punch_new env mac s e = rw e

-- When a direct connection is tried, in the words of the service: to one station that the group
-- knows, that no try is going on with, and whose failures are fewer than ten and long enough ago.
pub record IsWanted (env : Env) (mac : ℕ) (s : P2p) : Type 0 where
  pub one_station : is_uni_cast mac ≡ true
  pub known : env.find_peer mac ≡ true
  pub not_tried : load mac s.p2p_try_socks ≡ none
  pub few : (p : PunchFail) → load mac s.his_p2p_fail_info ≡ some p → p.failed_count < 10
  pub long_ago :
      (p : PunchFail)
      → load mac s.his_p2p_fail_info ≡ some p
      → env.config.p2p_retry_interval ≤ seconds_since env p.failed_time

-- isNeedP2P answers yes exactly where the peer is one station that the group knows, no try is going on
-- with it, and its failures, if any, are fewer than ten and the interval for a retry has passed.
pub is_need_p2p_iff :
    (env : Env) (mac : ℕ) (s : P2p)
    → (is_need_p2p env mac s ≡ true → IsWanted env mac s)
      × (IsWanted env mac s → is_need_p2p env mac s ≡ true)
unfolding is_need_p2p
is_need_p2p_iff env mac s = (
  λ e. record {
    one_station = ground arith;
    known = ground arith;
    not_tried = ground arith;
    few = λ p l. ground arith;
    long_ago = λ p l. ground arith;
  },
  λ w. by_record (load mac s.his_p2p_fail_info) refl w,
)
  where
    by_record :
        (o : Option PunchFail)
        → load mac s.his_p2p_fail_info ≡ o
        → IsWanted env mac s
        → is_need_p2p env mac s ≡ true
    by_record none e w = ground (arith, w.one_station, w.known, w.not_tried)
    by_record (some p) e w =
        ground (arith, w.one_station, w.known, w.not_tried, w.few p e, w.long_ago p e)

-- A failure is counted and dated, its punch socket is gone, and other peers are not touched.
pub save_fail_punch_info_lem :
    (env : Env) (mac k : ℕ) (s : P2p)
    → let t = save_fail_punch_info env mac s in
      (load k t.his_p2p_fail_info ≡ (
        if mac == k
        then some (one_more_failure env mac (load mac s.his_p2p_fail_info))
        else load k s.his_p2p_fail_info))
      × (load k t.punch_socks ≡ (if mac == k then none else load k s.punch_socks))
unfolding save_fail_punch_info
save_fail_punch_info_lem env mac k s = by_sock (load mac s.punch_socks) refl
  where
    by_sock :
        (o : Option ℕ)
        → load mac s.punch_socks ≡ o
        → let t = save_fail_punch_info env mac s in
          (load k t.his_p2p_fail_info ≡ (
            if mac == k
            then some (one_more_failure env mac (load mac s.his_p2p_fail_info))
            else load k s.his_p2p_fail_info))
          × (load k t.punch_socks ≡ (if mac == k then none else load k s.punch_socks))
    by_sock none e = rw e (simp map_laws (refl, refl))
    by_sock (some r) e = rw e (simp map_laws (refl, refl))

-- Failures of one peer, one after the other.
unfoldable pub fail_each : List Env → ℕ → P2p → P2p
fail_each [] mac s = s
fail_each (env ∷ envs) mac s = fail_each envs mac (save_fail_punch_info env mac s)

fail_each-count :
    (envs : List Env) (mac : ℕ) (s : P2p) (p : PunchFail)
    → load mac s.his_p2p_fail_info ≡ some p
    → p.failed_count + length envs < 2 ^ 32
    → (q : PunchFail) × (load mac (fail_each envs mac s).his_p2p_fail_info ≡ some q)
      × (q.failed_count ≡ p.failed_count + length envs)
unfolding fail_each
fail_each-count [] mac s p e h = (p, e, omega arith)
fail_each-count (env ∷ envs) mac s p e h =
    let (q, found, count) =
      fail_each-count envs mac (save_fail_punch_info env mac s) (one_more_failure env mac (some p))
        (ground (arith, (save_fail_punch_info_lem env mac mac s).0)) (omega arith) in
    (q, found, omega (arith, count))

save_fail_punch_info-socks :
    (env : Env) (mac : ℕ) (s : P2p) → (save_fail_punch_info env mac s).p2p_socks ≡ s.p2p_socks
unfolding save_fail_punch_info
save_fail_punch_info-socks env mac s = by_sock (load mac s.punch_socks) refl
  where
    by_sock :
        (o : Option ℕ)
        → load mac s.punch_socks ≡ o
        → (save_fail_punch_info env mac s).p2p_socks ≡ s.p2p_socks
    by_sock none e = rw e refl
    by_sock (some r) e = rw e refl

fail_each-socks :
    (envs : List Env) (mac : ℕ) (s : P2p) → (fail_each envs mac s).p2p_socks ≡ s.p2p_socks
unfolding fail_each
fail_each-socks [] mac s = refl
fail_each-socks (env ∷ envs) mac s =
    fail_each-socks envs mac (save_fail_punch_info env mac s) ∙ save_fail_punch_info-socks env mac s

not_needed_after :
    (envs : List Env) (mac : ℕ) (s : P2p) (later : Env)
    → load mac s.his_p2p_fail_info ≡ none
    → 10 ≤ length envs
    → length envs < 2 ^ 32
    → is_need_p2p later mac (fail_each envs mac s) ≡ false
unfolding is_need_p2p fail_each
not_needed_after [] mac s later e ten small = absurd (omega arith)
not_needed_after (env ∷ envs) mac s later e ten small =
    let (q, found, count) =
      fail_each-count envs mac (save_fail_punch_info env mac s) (one_more_failure env mac none)
        (ground (arith, (save_fail_punch_info_lem env mac mac s).0)) (omega arith) in
    ground (arith, found, count)

-- A frame for a peer without a direct connection, where none is wanted, is left to the server.
try_forward_message_left :
    (env : Env) (mac : ℕ) (msg : DataFrame) (s : P2p)
    → load mac s.p2p_socks ≡ none
    → is_need_p2p env mac s ≡ false
    → try_forward_message env mac msg s ≡ (s, false)
unfolding try_forward_message is_need_p2p
try_forward_message_left env mac msg s none' needless = elim (Bool-cases s.running) [
  | inr off ↦ rw off refl
  | inl on ↦ elim (Bool-cases (is_uni_cast mac)) [
    | inl uni ↦ rw (on, uni, none', needless) refl
    | inr multi ↦ rw (on, multi) refl
  ]
]

-- In the state that ten or more failures of one peer in a row leave, fewer than 2^32 of them and none
-- before, the service does not want a direct connection to that peer, however much later it is asked: a
-- frame for the peer, which has no established socket, is not sent directly, starts no punch, and changes
-- nothing.
pub is_need_p2p-fail_each :
    (envs : List Env) (mac : ℕ) (msg : DataFrame) (s : P2p) (later : Env)
    → load mac s.his_p2p_fail_info ≡ none
    → load mac s.p2p_socks ≡ none
    → 10 ≤ length envs
    → length envs < 2 ^ 32
    → (is_need_p2p later mac (fail_each envs mac s) ≡ false)
      × (try_forward_message later mac msg (fail_each envs mac s) ≡ (fail_each envs mac s, false))
is_need_p2p-fail_each envs mac msg s later e unconnected ten small =
    let needless = not_needed_after envs mac s later e ten small in
    (
      needless,
      try_forward_message_left later mac msg (fail_each envs mac s)
          (ap (load mac) (fail_each-socks envs mac s) ∙ unconnected) needless,
    )

one_more_failure-time :
    (env : Env) (mac : ℕ) (o : Option PunchFail)
    → (one_more_failure env mac o).failed_time ≡ env.now
one_more_failure-time env mac none = refl
one_more_failure-time env mac (some p) = refl

-- Right behind a failure the peer is left alone until the interval of the configuration is over.
pub is_need_p2p-save_fail :
    (env later : Env) (mac : ℕ) (s : P2p)
    → seconds_since later env.now < later.config.p2p_retry_interval
    → is_need_p2p later mac (save_fail_punch_info env mac s) ≡ false
unfolding is_need_p2p
is_need_p2p-save_fail env later mac s h = ground (
  arith,
  (save_fail_punch_info_lem env mac mac s).0,
  one_more_failure-time env mac (load mac s.his_p2p_fail_info),
)

start_punch_fresh :
    (env : Env) (mac r : ℕ) (s : P2p)
    → load mac s.punch_socks ≡ some r
    → unix env < (s.punches r).start_time + s.p2p_failed_time
    → start_punch env mac false s ≡ (s, done)
unfolding start_punch
start_punch_fresh env mac r s e h = ground arith

got_local-keeps :
    (mac r : ℕ) (o : Option Sock) (s : P2p)
    → let t = (got_local r o s).0 in
      (load mac t.punch_socks ≡ load mac s.punch_socks)
      × ((t.punches r).start_time ≡ (s.punches r).start_time)
      × (t.p2p_failed_time ≡ s.p2p_failed_time)
got_local-keeps mac r none s = (refl, refl, refl)
got_local-keeps mac r (some sock) s = (refl, ground arith, refl)

connected-keeps :
    (env : Env) (mac r : ℕ) (o : Option (List ℕ)) (s : P2p)
    → (connected_punch env mac r o s).1 ≡ done
    → let t = (connected_punch env mac r o s).0 in
      (load mac t.punch_socks ≡ load mac s.punch_socks)
      × ((t.punches r).start_time ≡ (s.punches r).start_time)
      × (t.p2p_failed_time ≡ s.p2p_failed_time)
connected-keeps env mac r none s e = cc
connected-keeps env mac r (some addr) s e =
    got_local-keeps mac r (local_sock_of (extract_addr_from_str env.little_endian addr)) s

-- A punch socket is not opened twice: while it is fresh, a second call of StartPunch for its peer
-- leaves everything as it is.
pub start_punch_once :
    (env later : Env) (mac : ℕ) (s : P2p)
    → load mac s.punch_socks ≡ none
    → (start_punch env mac false s).1 ≡ done
    → unix later < unix env + s.p2p_failed_time
    → start_punch later mac false (start_punch env mac false s).0
      ≡ ((start_punch env mac false s).0, done)
start_punch_once env later mac s e ok h =
    let (found, time, limit) =
      connected-keeps env mac s.next_ref (env.connect s.next_ref) (registered env mac s)
        (ground (arith, start_punch_new env mac s e)) in
    rw (start_punch_new env mac s e) (
      start_punch_fresh later mac s.next_ref _ (found ∙ simp load-store (ground arith))
        (ground arith))
