-- ===== src/Route/Reverse.antt =====
-- `getReverseRoute` of rw_core/route/device_route.go.
use vol_2619_voltha_go.Prelude.{ℕ, zero, suc, List, [], ◌∷◌, ◌++◌, ◌≡◌, refl, ap, ◌∙◌, length}
use vol_2619_voltha_go.Route.{Hop, swap_hop, hop_at, reverse_from, get_reverse_route}

reverse_from_snoc :
    (n : ℕ) (h : Hop) (hs : List Hop)
    → reverse_from (suc n) (h ∷ hs) ≡ reverse_from n hs ++ swap_hop h ∷ []
unfolding reverse_from
reverse_from_snoc zero h hs = refl
reverse_from_snoc (suc n) h hs = ap (λ r. swap_hop (hop_at hs n) ∷ r) (reverse_from_snoc n h hs)

reverse_cons :
    (h : Hop) (hs : List Hop) → get_reverse_route (h ∷ hs) ≡ get_reverse_route hs ++ swap_hop h ∷ []
unfolding get_reverse_route
reverse_cons h hs = reverse_from_snoc (length hs) h hs

reverse_snoc :
    (hs : List Hop) (h : Hop) → get_reverse_route (hs ++ h ∷ []) ≡ swap_hop h ∷ get_reverse_route hs
reverse_snoc [] h = unfold get_reverse_route reverse_from in refl
reverse_snoc (g ∷ hs) h =
    reverse_cons g (hs ++ h ∷ [])
    ∙ ap (λ r. r ++ swap_hop g ∷ []) (reverse_snoc hs h)
    ∙ ap (λ r. swap_hop h ∷ r) (rw (reverse_cons g hs))

-- A route turned round twice is the route itself, for routes of every length.
pub get_reverse_route-get_reverse_route :
    (route : List Hop) → get_reverse_route (get_reverse_route route) ≡ route
get_reverse_route-get_reverse_route [] = unfold get_reverse_route reverse_from in refl
get_reverse_route-get_reverse_route (h ∷ hs) =
    ap get_reverse_route (reverse_cons h hs)
    ∙ reverse_snoc (get_reverse_route hs) (swap_hop h)
    ∙ ap (λ r. h ∷ r) (get_reverse_route-get_reverse_route hs)
