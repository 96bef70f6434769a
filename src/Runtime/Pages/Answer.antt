-- ===== src/Runtime/Pages/Answer.antt =====
-- The frames that an answer to a request for links puts on the channel to the server.
use vilan_peer.Base.{ℕ, ◌≡◌, ap, ◌∙◌, sym, true, List, [], ◌∷◌, ◌++◌, append-nil}
use vilan_peer.Base.{append_assoc, some, if◌then◌else◌}
use vilan_peer.Model.Wire.{IpNet}
use vilan_peer.Model.Messages.{LinksRequest, LinksResponse, PeerBody, PeerFrame}
use vilan_peer.Runtime.State.{Runtime, Host, Effect, sent, emit, done}
use vilan_peer.Runtime.Send.{frame, forward_message}
use vilan_peer.Runtime.Pages.{answers, send_responses, process_peer_links_request, with_channel}
use vilan_peer.Runtime.Pages.{with_local_ip}

abbrev pub frame_of : Runtime → PeerBody → PeerFrame
frame_of r body = frame body r

-- One frame for each response.
unfoldable pub sent_each : ℕ → (PeerBody → PeerFrame) → List LinksResponse → List Effect
sent_each h make [] = []
sent_each h make (m ∷ ms) = sent h (make (PeerBody.links_response m)) ∷ sent_each h make ms

pub forwarded :
    (h : ℕ) (msg : PeerFrame) (r : Runtime)
    → r.running ≡ true
    → r.server_sock.handler ≡ some h
    → forward_message r.server_sock.handler msg r ≡ emit (sent h msg) r
forwarded h msg r run e =
    ap (λ o. forward_message o msg r) e ∙ ap (λ b. if b then emit (sent h msg) r else r) run

send_responses_lem :
    (h : ℕ) (ms : List LinksResponse) (r : Runtime)
    → r.running ≡ true
    → r.server_sock.handler ≡ some h
    → send_responses ms r ≡ record r { log = r.log ++ sent_each h (frame_of r) ms }
unfolding send_responses sent_each
send_responses_lem h [] r run e = ap (λ l. record r { log = l }) (sym (append-nil r.log))
send_responses_lem h (m ∷ ms) r run e =
    ap (send_responses ms) (forwarded h first r run e)
    ∙ send_responses_lem h ms (emit (sent h first) r) run e
    ∙ ap (λ l. record r { log = l })
        (append_assoc r.log (sent h first ∷ []) (sent_each h (frame_of r) ms))
  where
    first : PeerFrame
    first = frame (PeerBody.links_response m) r

-- A running service with a channel to the server and a known local address answers a request with
-- one frame for each page, in order, on that channel, and changes nothing else.
pub process_peer_links_request_lem :
    (host : Host) (m : LinksRequest) (r : Runtime) (h : ℕ) (net : IpNet)
    → r.running ≡ true
    → r.server_sock.handler ≡ some h
    → r.local_ip ≡ some net
    → process_peer_links_request host (some m) r ≡ (
      record r {
        log =
            r.log
            ++ sent_each h (frame_of r) (answers host net r.config.tap_config.hw_mac m.src_mac);
      },
      done,
    )
unfolding process_peer_links_request
process_peer_links_request_lem host m r h net run e local =
    ap (λ o. with_channel host o (some m) r) e
    ∙ ap (λ o. with_local_ip host o (some m) r) local
    ∙ ap (λ t. (t, done))
        (send_responses_lem h (answers host net r.config.tap_config.hw_mac m.src_mac) r run e)
