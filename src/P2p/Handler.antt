-- ===== src/P2p/Handler.antt =====
-- service/data_handler.go: what a channel to a peer does, on the context that it shares with
-- P2pService. What is written to the virtual network card is an event.
use vilan_peer.Base.{ℕ, ◌+◌, ◌%◌, ◌^◌, [], Option, none, some, true}
use vilan_peer.Model.Wire.{DataFrame, DataType, packet, p2p_try, ping, pong, other}
use vilan_peer.P2p.State.{P2p, Env, Reply, done, wrote_data, wrote_tap, unix, own_mac}
use vilan_peer.P2p.State.{emit, set_peer}
use vilan_peer.P2p.Connect.{p2p_success}
use vilan_peer.P2p.Check.{ping_frame}

abbrev pub pong_frame : Env → ℕ → DataFrame
pong_frame env mac = record {
  msg_type = DataType.pong;
  src_mac = own_mac env;
  dst_mac = mac;
  token = 0;
  payload = [];
}

-- HandleActive on channel `h` of context `r`.
unfoldable pub handle_active : Env → ℕ → ℕ → P2p → P2p
handle_active env r h s =
    let s' = set_peer r (record (s.peers r) { connected = true; handler = some h }) s in
    emit (wrote_data h (ping_frame env (s'.peers r).peer_mac)) s'

-- processMsg, by the type of the frame.
unfoldable pub process_msg : Env → ℕ → ℕ → DataFrame → DataType → P2p → P2p × Reply
process_msg env r h msg packet s = (emit (wrote_tap msg.payload) s, done)
process_msg env r h msg p2p_try s = p2p_success env msg.src_mac (some r) s
process_msg env r h msg ping s = (emit (wrote_data h (pong_frame env msg.src_mac)) s, done)
process_msg env r h msg pong s = (s, done)
process_msg env r h msg other s = (s, done)

-- A frame that processMsg answers without an error: the errors of P2PSuccess are only logged.
abbrev pub logged : P2p × Reply → P2p × Reply
logged (s, Reply.failed e) = (s, done)
logged (s, Reply.done) = (s, done)
logged (s, Reply.panicked) = (s, Reply.panicked)

-- HandleRead: `none` is a message of another type than MsgDataFrame.
unfoldable pub handle_read : Env → ℕ → ℕ → Option DataFrame → P2p → P2p × Reply
unfolding process_msg
handle_read env r h none s = (set_peer r (record (s.peers r) { handler = some h }) s, done)
handle_read env r h (some msg) s = logged (
    process_msg env r h msg msg.msg_type (
      set_peer r
        (record (s.peers r) { handler = some h; last_receive = unix env; ping_try_count = 0 }) s))

abbrev pub idle_ping : Env → ℕ → Option ℕ → P2p → P2p
idle_ping env r none s = s
idle_ping env r (some h) s =
    let v = s.peers r in
    emit (wrote_data h (ping_frame env v.peer_mac))
      (set_peer r (record v { ping_try_count = (v.ping_try_count + 1) % 2 ^ 64 }) s)

-- HandleEvent on ReadIdleEvent.
unfoldable pub handle_read_idle : Env → ℕ → P2p → P2p
handle_read_idle env r s = idle_ping env r (s.peers r).handler s
