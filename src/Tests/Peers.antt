-- ===== src/Tests/Peers.antt =====
-- service/p2p_service.go on concrete states.
use vilan_peer.Base.{ℕ, ◌*◌, ◌≡◌, refl, arith, List, [], ◌∷◌, ◌++◌, none, some}
use vilan_peer.Base.{true, false, load}
use vilan_peer.Base.Text.{codes}
use vilan_peer.Model.Config.{AppConfig, crypt_none, auto_assign}
use vilan_peer.Model.Wire.{DataFrame, packet}
use vilan_peer.P2p.State.{P2p, Env, PeerSock, PunchSock, emit}
use vilan_peer.P2p.State.{wrote_data}
use vilan_peer.P2p.Punch.{is_need_p2p}
use vilan_peer.P2p.Punch.{try_forward_message}
use vilan_peer.P2p.Punch.Forward.{try_forward_message_sends}
use vilan_peer.P2p.Punch.Backoff.{IsWanted, is_need_p2p_iff, fail_each, is_need_p2p-fail_each}
use vilan_peer.P2p.Connect.{new_try}
use vilan_peer.P2p.Connect.Outcome.{stops}
use vilan_peer.P2p.Check.{state_check, stop_p2p_sockets}
use vilan_peer.P2p.Check.Removal.{state_check-socks, kept_at}
use vilan_peer.P2p.Check.Shutdown.{stop_p2p_sockets_lem}

abbrev pub config : AppConfig
config = record {
  server_ip = "192.168.1.100";
  server_port = 3000;
  heartbeat = 30;
  offline = 90;
  max_packet_size = 65535;
  packet_num = 128;
  p2p_try_count = 3;
  p2p_retry_interval = 3;
  allow_visit_port = false;
  enable_log = true;
  save_log = true;
  log_level = 1;
  peer_config = record {
    group_name = "default_group";
    group_pwd = "12345678";
    peer_pwd = "default_pwd";
    name = "peer";
    crypt_type = crypt_none;
  };
  tap_config = record {
    name = "vilan";
    hw_mac = 0xa1;
    hw_mac_str = codes "161";
    ip_mode = auto_assign;
    ip_addr = 0x0a000001;
    ip_addr_str = codes "10.0.0.1";
    ip_mask = 24;
    dev_type = 1;
  };
}

-- `secs` seconds after the epoch; every peer is known, and every connection is made.
abbrev pub at : ℕ → Env
at secs = record {
  now = secs * 1_000_000_000;
  config = config;
  find_peer = λ mac. true;
  connect = λ r. some (codes "10.0.0.1:5000");
  little_endian = true;
}

abbrev no_punch : PunchSock
no_punch = record {
  peer_mac = 0;
  handler = none;
  local_sock = none;
  start_time = 0;
  last_receive = 0;
  connected = false;
}

abbrev pub started : P2p
started = record {
  running = true;
  cancel_func = true;
  p2p_failed_time = 30;
  punch_socks = [];
  p2p_try_socks = [];
  p2p_socks = [];
  his_p2p_fail_info = [];
  peers = λ r. new_try 0;
  punches = λ r. no_punch;
  next_ref = 0;
  log = [];
}

abbrev on_channel : ℕ → PeerSock
on_channel mac = record (new_try mac) { handler = some 7; connected = true }

-- Peer 0xb2 is connected by context 0 on channel 7.
abbrev pub direct : P2p
direct = record started { p2p_socks = (0xb2, 0) ∷ []; peers = λ r. on_channel 0xb2; next_ref = 1 }

-- Peer 0xb2 is being tried by context 0 on channel 7.
abbrev trying : P2p
trying = record started {
  p2p_try_socks = (0xb2, 0) ∷ [];
  peers = λ r. on_channel 0xb2;
  next_ref = 1;
}

-- The same without a channel.
abbrev trying_blind : P2p
trying_blind = record trying { peers = λ r. new_try 0xb2 }

abbrev pub frame : DataFrame
frame = record { msg_type = packet; src_mac = 0xa1; dst_mac = 0xb2; token = 0; payload = 1 ∷ [] }

direct_sends :
    try_forward_message (at 100) 0xb2 frame direct ≡ (emit (wrote_data 7 frame) direct, true)
direct_sends =
    try_forward_message_sends (at 100) 0xb2 frame direct 0 7 refl refl (unfold load in refl) refl

is_need_p2p_iff_example :
    (is_need_p2p (at 100) 0xb2 started ≡ true → IsWanted (at 100) 0xb2 started)
    × (IsWanted (at 100) 0xb2 started → is_need_p2p (at 100) 0xb2 started ≡ true)
is_need_p2p_iff_example = is_need_p2p_iff (at 100) 0xb2 started

abbrev ten : List Env
ten = at 1 ∷ at 2 ∷ at 3 ∷ at 4 ∷ at 5 ∷ at 6 ∷ at 7 ∷ at 8 ∷ at 9 ∷ at 10 ∷ []

is_need_p2p-fail_each_example :
    (is_need_p2p (at 1000000) 0xb2 (fail_each ten 0xb2 started) ≡ false)
    × (try_forward_message (at 1000000) 0xb2 frame (fail_each ten 0xb2 started)
        ≡ (fail_each ten 0xb2 started, false))
is_need_p2p-fail_each_example =
    is_need_p2p-fail_each ten 0xb2 frame started (at 1000000) (unfold load in refl)
      (unfold load in refl) (omega arith) (omega arith)

-- Last heard of at 0, with three pings that were not answered.
abbrev lapsed : P2p
lapsed = record direct { peers = λ r. record (on_channel 0xb2) { ping_try_count = 3 } }

state_check-socks_example :
    load 0xb2 (state_check (at 100) lapsed).p2p_socks
    ≡ kept_at (at 100) lapsed (load 0xb2 lapsed.p2p_socks)
unfolding load
state_check-socks_example = state_check-socks (at 100) 0xb2 lapsed (refl, refl, tt)

-- The socket is taken out; before the first ping it stays.
lapsed_leaves :
    (kept_at (at 100) lapsed (some 0) ≡ none) × (kept_at (at 100) direct (some 0) ≡ some 0)
lapsed_leaves = (refl, refl)

-- Context 0 belongs to 0xb2 and was entered for 0xc3.
abbrev foreign : P2p
foreign = record started {
  p2p_socks = (0xc3, 0) ∷ [];
  peers = λ r. record (on_channel 0xb2) { ping_try_count = 3 };
  next_ref = 1;
}

stop_p2p_sockets_lem_example :
    let t = stop_p2p_sockets direct in
    (load 0xb2 t.p2p_socks ≡ none)
    × (load 0xb2 t.p2p_try_socks ≡ none)
    × (t.punch_socks ≡ direct.punch_socks)
    × (t.log ≡ (direct.log ++ stops direct.p2p_socks) ++ stops direct.p2p_try_socks)
stop_p2p_sockets_lem_example = stop_p2p_sockets_lem 0xb2 direct
