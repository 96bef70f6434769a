-- ===== src/Runtime/Peers/Routes.antt =====
-- The routes of the operating system that the service has added.
use vilan_peer.Base.{ℕ, ◌≡◌, refl, ap, ◌∙◌, sym, Bool, ◌&&◌, List, [], ◌∷◌, ◌++◌}
use vilan_peer.Base.{Bool-cases, inl, inr, Option, none, some, if◌then◌else◌}
use vilan_peer.Base.Text.{same_text, same_text_refl}
use vilan_peer.Address.{uint32_to_ip_v4}
use vilan_peer.Tap.{
  Tap, TapEvent, added_route, deleted_route, did_set_mac, did_set_ip, went_up, reading,
}
use vilan_peer.Tap.{closed, wrote, add_route}
use vilan_peer.Model.Messages.{PeerInfo}
use vilan_peer.Runtime.State.{Host, World, RouteInfo, find_peer}
use vilan_peer.Runtime.Peers.{clean_routes, unroute, add_route_to, route_to, route_via, route_of}

-- A route by its texts: destination, mask and gateway.
pub record Route : Type 0 where
  pub dst : List ℕ
  pub mask : List ℕ
  pub gw : List ℕ

abbrev same_route : Route → Route → Bool
same_route a b = same_text a.dst b.dst && (same_text a.mask b.mask && same_text a.gw b.gw)

unfoldable pub remove_route : Route → List Route → List Route
remove_route a [] = []
remove_route a (b ∷ bs) = let rest = remove_route a bs in if same_route a b then rest else b ∷ rest

abbrev step : TapEvent → List Route → List Route
step (added_route d m g) rs = record { dst = d; mask = m; gw = g } ∷ rs
step (deleted_route d m g) rs = remove_route (record { dst = d; mask = m; gw = g }) rs
step (did_set_mac a b) rs = rs
step (did_set_ip a b c) rs = rs
step (went_up a) rs = rs
step (reading a) rs = rs
step (closed a) rs = rs
step (wrote a b) rs = rs

-- The routes after a sequence of calls, where each call of the log took effect.
unfoldable pub routes_after : List TapEvent → List Route → List Route
routes_after [] rs = rs
routes_after (e ∷ es) rs = routes_after es (step e rs)

routes_after-append :
    (es : List TapEvent) (e : TapEvent) (rs : List Route)
    → routes_after (es ++ (e ∷ [])) rs ≡ step e (routes_after es rs)
unfolding routes_after
routes_after-append [] e rs = refl
routes_after-append (d ∷ es) e rs = routes_after-append es e (step d rs)

abbrev as_route : RouteInfo → Route
as_route o = record {
  dst = uint32_to_ip_v4 o.destination;
  mask = uint32_to_ip_v4 o.mask;
  gw = uint32_to_ip_v4 o.gateway;
}

abbrev pub last_routes : Option RouteInfo → List Route
last_routes none = []
last_routes (some o) = as_route o ∷ []

-- The system has the route that the service remembers, and no other of its own.
abbrev pub IsRouted : World → Type 0
IsRouted w = routes_after w.tap.log [] ≡ last_routes w.runtime.last_route

remove-own : (a : Route) → remove_route a (a ∷ []) ≡ []
unfolding remove_route
remove-own a = rw (same_text_refl a.dst, same_text_refl a.mask, same_text_refl a.gw) refl

unroute-clean :
    (o : Option RouteInfo) (t : Tap)
    → routes_after t.log [] ≡ last_routes o
    → routes_after (unroute o t).log [] ≡ []
unroute-clean none t e = e
unroute-clean (some o) t e =
    routes_after-append t.log _ [] ∙ ap (remove_route (as_route o)) e ∙ remove-own (as_route o)

route_via-IsRouted :
    (host : Host) (o : RouteInfo) (w : World)
    → routes_after w.tap.log [] ≡ []
    → w.runtime.last_route ≡ none
    → IsRouted (route_via host o w).0
unfolding add_route
route_via-IsRouted host o w h none_left =
    elim (Bool-cases (
      host.os.add_route (uint32_to_ip_v4 o.destination) (uint32_to_ip_v4 o.mask)
        (uint32_to_ip_v4 o.gateway))) [
          | inl added ↦ rw added (
              routes_after-append w.tap.log
                (added_route (uint32_to_ip_v4 o.destination) (uint32_to_ip_v4 o.mask)
                  (uint32_to_ip_v4 o.gateway))
                []
              ∙ ap (λ rs. as_route o ∷ rs) h)
          | inr refused ↦ rw refused (h ∙ ap last_routes (sym none_left))
        ]

-- AddRoute and CleanRoutes keep it that the system has exactly the route that the service remembers:
-- a route of another peer is deleted before a new one is added, and none is remembered where that
-- fails. Each deletion is taken to have its effect, since its result is not looked at.
pub routes-IsRouted :
    (host : Host) (mac : ℕ) (w : World)
    → IsRouted w
    → IsRouted (add_route_to host mac w).0 × IsRouted (clean_routes w)
unfolding add_route_to clean_routes
routes-IsRouted host mac w h = (over (find_peer mac w.runtime), cleaned)
  where
    cleaned : routes_after (clean_routes w).tap.log [] ≡ []
    cleaned = unroute-clean w.runtime.last_route w.tap h

    over : (p : Option PeerInfo) → IsRouted (route_to host p w).0
    over none = h
    over (some p) = route_via-IsRouted host (route_of p) (clean_routes w) cleaned refl
