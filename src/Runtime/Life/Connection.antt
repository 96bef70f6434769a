-- ===== src/Runtime/Life/Connection.antt =====
-- When the service takes its server for connected.
use vilan_peer.Base.{◌≡◌, ◌≤◌, ◌<◌, ◌+◌, ◌-◌, ◌^◌, arith, true, false}
use vilan_peer.Runtime.State.{Host, ServerSock, is_connected, unix}

-- For a connected socket whose heartbeat and three seconds are below its limit for silence: a server
-- that was heard within the heartbeat and three seconds is connected, whatever a ping would say, and
-- one that has been silent up to the limit is not.
pub is_connected_lem :
    (host : Host) (sock : ServerSock)
    → sock.connected ≡ true
    → sock.heartbeat + 3 < sock.offline
    → sock.offline < 2 ^ 32
    → (unix host - sock.last_receive ≤ sock.heartbeat + 3 → is_connected host sock ≡ true)
      × (sock.offline ≤ unix host - sock.last_receive → is_connected host sock ≡ false)
unfolding is_connected
is_connected_lem host sock up order small = ((λ h. ground arith), (λ h. ground arith))
