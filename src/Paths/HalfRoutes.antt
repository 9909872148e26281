-- ===== src/Paths/HalfRoutes.antt =====
-- The routes that the agent gives have two hops (`GetRoute` of rw_core/core/logical_device_agent.go).
use vol_2619_voltha_go.Prelude.{
  arith, ℕ, Bool, true, false, Option, none, some, List, [], ◌∷◌, ◌==◌, ◌&&◌, if◌then◌else◌, Map,
  ◌≡◌, refl, length, is_empty, ◌∙◌, ap,
}
use vol_2619_voltha_go.Status.{Code, Result, ok, err, Run, returned}
use vol_2619_voltha_go.Openflow.{is_controller_bound}
use vol_2619_voltha_go.Route.{Hop, PathId}
use vol_2619_voltha_go.Route.Hops.{TwoHops, HasTwoHops}
use vol_2619_voltha_go.Paths.{
  PathAgent, first_route, found_route, second_half, first_half, upstream_route, route_between,
  nni_trap, route_to, get_route, get_pre_calculated_route, get_first_nni_port, is_nni_port,
}

-- A run that returns, and a route of two hops if it returns one.
abbrev pub GivesTwoHops : Run (Result (List Hop)) → Type 0
GivesTwoHops run =
    (r : Result (List Hop)) × (run ≡ returned r)
    × ((path : List Hop) → r ≡ ok path → length path ≡ 2)

abbrev IsTwo : Option (List Hop) → Type 0
IsTwo none = Unit
IsTwo (some hops) = length hops ≡ 2

first_route-IsTwo :
    (p : PathId → Bool) (m : Map PathId (List Hop)) → TwoHops m → IsTwo (first_route p m)
unfolding first_route
first_route-IsTwo p [] t = tt
first_route-IsTwo p ((link, hops) ∷ m) t = at (p link) (first_route-IsTwo p m t.1)
  where
    at : (b : Bool) → IsTwo (first_route p m) → IsTwo (if b then some hops else first_route p m)
    at true rest = t.0
    at false rest = rest

gives-err : (c : Code) → GivesTwoHops (returned (err c))
gives-err c = (err c, refl, (λ path e. cc))

gives-ok : (hops : List Hop) → length hops ≡ 2 → GivesTwoHops (returned (ok hops))
gives-ok hops h = (ok hops, refl, (λ path e. ap length (same path e) ∙ h))
  where
    same : (path : List Hop) → ok hops ≡ ok path → path ≡ hops
    same path e = cc

second_half-gives : (o : Option (List Hop)) → IsTwo o → GivesTwoHops (second_half o)
second_half-gives none h = gives-err _
second_half-gives (some (a ∷ b ∷ hs)) h = gives-ok _ refl
second_half-gives (some (a ∷ [])) h = absurd (omega (arith, h))
second_half-gives (some []) h = absurd (omega (arith, h))

first_half-gives : (o : Option (List Hop)) → IsTwo o → GivesTwoHops (first_half o)
first_half-gives none h = gives-err _
first_half-gives (some (a ∷ hs)) h = gives-ok _ refl
first_half-gives (some []) h = absurd (omega (arith, h))

found_route-gives : (o : Option (List Hop)) → IsTwo o → GivesTwoHops (returned (found_route o))
found_route-gives none h = gives-err _
found_route-gives (some hops) h = gives-ok hops h

gives-if :
    (b : Bool) (r r' : Run (Result (List Hop)))
    → GivesTwoHops r
    → GivesTwoHops r'
    → GivesTwoHops (if b then r else r')
gives-if true r r' k k' = k
gives-if false r r' k k' = k'

module _ (a : PathAgent) (t : HasTwoHops a.device_routes) where
  upstream_route-gives : GivesTwoHops (upstream_route a)
  unfolding upstream_route
  upstream_route-gives = second_half-gives _ (first_route-IsTwo _ a.device_routes.routes t)

  route_between-gives : (i o : ℕ) → GivesTwoHops (route_between a i o)
  unfolding route_between get_pre_calculated_route
  route_between-gives i o =
      gives-if (i == 0 && is_nni_port o a.logical_ports_no) _ _ upstream_route-gives (
        gives-if (o == 0) _ _ (first_half-gives _ (first_route-IsTwo _ a.device_routes.routes t))
          (found_route-gives _ (first_route-IsTwo _ a.device_routes.routes t)))

  route_to-gives : (i : ℕ) (r : Result ℕ) → GivesTwoHops (route_to a i r)
  route_to-gives i (err c) = gives-err c
  route_to-gives i (ok o) = route_between-gives i o

  -- If all the routes of the device have two hops, the agent returns for any two ports, and a route that
  -- it gives has two hops: the decomposer never finds another length.
  pub get_route-GivesTwoHops : (i o : ℕ) → GivesTwoHops (get_route a i o)
  unfolding get_route nni_trap
  get_route-GivesTwoHops i o =
      gives-if (is_controller_bound o) _ _
        (gives-if (is_nni_port i a.logical_ports_no) _ _
          (gives-if (is_empty a.device_routes.routes) _ _ (gives-ok _ refl) upstream_route-gives)
          (route_to-gives i (get_first_nni_port a.logical_ports_no)))
        (route_between-gives i o)
