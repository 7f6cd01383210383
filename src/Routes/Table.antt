-- ===== src/Routes/Table.antt =====
-- The table of the routes, and what is looked up in it (web/src/lib/routes.ts). The table's rows are
-- data: the functions take any table. `fold` stands for `fold`, which normalises Unicode.
use zte_u60_pro_mu5250_manag.Common.{
  ℕ, ◌-◌, Bool, true, not, ◌&&◌, ◌||◌, Option, none, some, List, [], ◌∷◌, ◌++◌, map, filter, length,
  if◌then◌else◌, ltb, max,
}
use zte_u60_pro_mu5250_manag.Common.Texts.{Text, codes, text_eq}
use zte_u60_pro_mu5250_manag.Common.Sort.{sort_by}
use zte_u60_pro_mu5250_manag.Scheduler.Jobs.{starts_with}
use zte_u60_pro_mu5250_manag.Home.Words.{has_word}

pub data Anchor : Type 0 where
  home charts functions system : Anchor

-- A row, without its icon, its key of a translation and its group.
pub record RouteDef : Type 0 where
  pub href : Text
  pub fallback : Text
  pub anchor : Anchor
  pub aliases : List Text

-- `p.endsWith("/") ? p.slice(0, -1)`.
unfoldable pub without_end : Text → Text
without_end [] = []
without_end (c ∷ []) = if text_eq (c ∷ []) (codes "/") then [] else c ∷ []
without_end (c ∷ d ∷ s) = let rest = without_end (d ∷ s) in c ∷ rest

-- `normPath`.
unfoldable pub norm_path : Text → Text
unfolding without_end
norm_path p = if ltb 1 (length p) then without_end p else p

-- The test of one route in `routeFor`.
unfoldable pub is_route_of : Text → RouteDef → Bool
unfolding text_eq starts_with
is_route_of cur r =
    text_eq cur r.href
    || (not (text_eq r.href (codes "/")) && starts_with (r.href ++ codes "/") cur)

abbrev pub is_better : RouteDef → Option RouteDef → Bool
is_better r none = true
is_better r (some best) = ltb (length best.href) (length r.href)

-- The loop of `routeFor`, with the best route so far.
unfoldable pub best_route : Text → Option RouteDef → List RouteDef → Option RouteDef
unfolding is_route_of
best_route cur best [] = best
best_route cur best (r ∷ rs) =
    best_route cur (if is_route_of cur r && is_better r best then some r else best) rs

-- `routeFor`.
unfoldable pub route_for : List RouteDef → Text → Option RouteDef
unfolding norm_path best_route
route_for routes pathname = best_route (norm_path pathname) none routes

abbrev pub anchor_of : Option RouteDef → Anchor
anchor_of none = Anchor.home
anchor_of (some r) = r.anchor

-- `anchorFor`: the hub pages, then the route.
unfoldable pub anchor_for : List RouteDef → Text → Anchor
unfolding text_eq norm_path route_for
anchor_for routes pathname =
    let cur = norm_path pathname in
    if text_eq cur (codes "/charts")
    then Anchor.charts
    else if text_eq cur (codes "/functions")
    then Anchor.functions
    else if text_eq cur (codes "/system")
    then Anchor.system
    else anchor_of (route_for routes cur)

-- What one term of a route scores.
unfoldable pub term_score : Text → Text → ℕ
unfolding text_eq starts_with has_word
term_score q t =
    if text_eq t q then 100 else if starts_with q t then 60 else if has_word q t then 30 else 0

unfoldable pub best_score : Text → List Text → ℕ
unfolding term_score
best_score q [] = 0
best_score q (t ∷ ts) = max (term_score q t) (best_score q ts)

module _ (fold : Text → Text) (title : RouteDef → Text) where
  unfoldable pub route_score : Text → RouteDef → ℕ
  unfolding best_score
  route_score q r = best_score q (map fold (title r ∷ r.fallback ∷ r.aliases))

  -- The order of the result: a higher score first. A score is at most 100, and the sort is stable, so
  -- the table's order breaks ties.
  unfoldable pub score_rank : Text → RouteDef → ℕ
  unfolding route_score
  score_rank q r = 100 - route_score q r

  -- The routes that score; none for an empty query.
  unfoldable pub candidates : Text → List RouteDef → List RouteDef
  unfolding route_score
  candidates [] routes = []
  candidates (c ∷ q) routes = filter (λ r. ltb 0 (route_score (c ∷ q) r)) routes

  -- `searchRoutes`.
  unfoldable pub search_routes : List RouteDef → Text → List RouteDef
  unfolding sort_by score_rank candidates
  search_routes routes query = sort_by (score_rank (fold query)) (candidates (fold query) routes)
