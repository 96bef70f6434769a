-- ===== src/Tests/Remotes.antt =====
-- The client half of serial/serial_service.go on concrete states.
use vilan_peer.Base.{◌≡◌, true, [], ◌∷◌, none, some, ◌==◌}
use vilan_peer.Serial.{PortConfig}
use vilan_peer.Serial.Client.{Remote, ClientContext, Ports, connect_remote, open_port_at}
use vilan_peer.Serial.Calls.{with_clients, re_connect_remote, Call}
use vilan_peer.Serial.Reconnect.{re_connect_remote-connect_remote}
use vilan_peer.Tests.Ports.{opened_port}

-- The peer 0xb2 can be reached and accepts, and answers to no request.
abbrev remote : Remote
remote = record {
  now = 200;
  find_peer = λ mac. mac == 0xb2;
  connect = λ mac. some 12;
  authorized = λ mac. some true;
  answer = λ msg. none;
  port_list = none;
  can_open = λ conf. true;
}

abbrev port : PortConfig
port = record { name = 5; baud = 9600; size = 8; parity = 78; stop_bits = 1 }

abbrev context : ClientContext
context = record {
  client_channel = some 11;
  handler = some 11;
  port_ctx = (3, port) ∷ [];
  last_receive = 150;
}

-- This device uses a port of the peer, which uses a port of this device.
abbrev pub both : Ports
both = record {
  server = opened_port;
  clients = record { client_ctx = (0xb2, context) ∷ []; log = [] };
}

re_connect_remote-connect_remote_example : re_connect_remote remote 0xb2 both ≡ (
  with_clients both (connect_remote remote 0xb2 both.clients).0,
  (connect_remote remote 0xb2 both.clients).1,
)
re_connect_remote-connect_remote_example = re_connect_remote-connect_remote remote 0xb2 both

abbrev late : Call
late ctx = open_port_at remote 4 6 none ctx
