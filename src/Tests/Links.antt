-- ===== src/Tests/Links.antt =====
-- The waiting of GetLinkInfos on concrete answers.
use vilan_peer.Base.{ℕ, zero, suc, ◌<◌, ◌≡◌, refl, arith, List, load, [], ◌∷◌, some, take, length}
use vilan_peer.Base.Text.{codes, split, parse_int, digits_value}
use vilan_peer.Address.{ip_v4_to_uint32, prefix_mask}
use vilan_peer.Runtime.State.{Host}
use vilan_peer.Runtime.Pages.{answers, local_links}
use vilan_peer.Runtime.Pages.Waiting.{get_link_infos, get_link_infos-answers, get_link_infos_pause}
use vilan_peer.Tests.Services.{host, net, host_links, runtime}

get_link_infos-answers_example :
    (get_link_infos 0xb2 (answers host net 0xb2 0xa1 ∷ [] ∷ []) runtime).1
    ≡ some (local_links net host.arp_table)
unfolding load
get_link_infos-answers_example =
    get_link_infos-answers host net 0xb2 9 [] runtime (refl, refl, refl) host_links refl

-- Entries of the segment.
unfoldable devices : ℕ → List (List ℕ)
devices zero = []
devices (suc n) = codes "192.168.1.20" ∷ devices n

abbrev crowded : Host
crowded = record host { arp_table = devices 51 }

crowded_links : 50 < length (local_links net crowded.arp_table)
unfolding devices local_links ip_v4_to_uint32 split parse_int digits_value prefix_mask
crowded_links = omega arith

get_link_infos_pause_example :
    (get_link_infos 0xb2 (take 1 (answers crowded net 0xb2 0xa1) ∷ [] ∷ []) runtime).1
    ≡ some (take 50 (local_links net crowded.arp_table))
unfolding load
get_link_infos_pause_example =
    get_link_infos_pause crowded net 0xb2 9 [] runtime (refl, refl, refl) crowded_links refl
