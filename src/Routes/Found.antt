-- ===== src/Routes/Found.antt =====
-- Which route a path is of, and how a search ranks (web/src/lib/routes.ts).
use zte_u60_pro_mu5250_manag.Common.{
  ℕ, suc, ◌+◌, get_elem?, ◌≤◌, ◌≡◌, refl, Bool, true, not, ◌&&◌, ◌||◌, Option, none, some, List, [],
  ◌∷◌, length, if◌then◌else◌, ltb, leb, Bool-cases, inl, inr, All, arith,
}
use zte_u60_pro_mu5250_manag.Common.Texts.{Text}
use zte_u60_pro_mu5250_manag.Common.Sort.{IsRanked, of_rank, sort_by-IsRanked, of_rank-sort_by}
use zte_u60_pro_mu5250_manag.Routes.Table.{
  RouteDef, is_route_of, is_better, best_route, route_for, norm_path, score_rank, candidates,
  search_routes,
}

-- What a found route is.
abbrev pub IsFoundWith : (RouteDef → Type 0) → Option RouteDef → Type 0
IsFoundWith P none = Unit
IsFoundWith P (some r) = P r

-- How long the best route is, and one.
abbrev pub length_of : Option RouteDef → ℕ
length_of none = 0
length_of (some r) = length r.href + 1

-- The best route after one more route.
abbrev taken : Text → Option RouteDef → RouteDef → Option RouteDef
taken cur best r = if is_route_of cur r && is_better r best then some r else best

taken_grows :
    (cur : Text) (best : Option RouteDef) (r : RouteDef)
    → (length_of best ≤ length_of (taken cur best r))
      × ((not (is_route_of cur r) || leb (length r.href + 1) (length_of (taken cur best r))) ≡ true)
taken_grows cur none r = elim (Bool-cases (is_route_of cur r)) [
  | inl e ↦ rw e (omega arith, ground arith)
  | inr e ↦ rw e (omega arith, refl)
]
taken_grows cur (some b) r = elim (Bool-cases (is_route_of cur r)) [
  | inl e ↦ elim (Bool-cases (ltb (length b.href) (length r.href))) [
    | inl l ↦ rw (e, l) (ground arith, ground arith)
    | inr l ↦ rw (e, l) (omega arith, ground arith)
  ]
  | inr e ↦ rw e (omega arith, refl)
]

best_grows :
    (cur : Text) (best : Option RouteDef) (rs : List RouteDef)
    → length_of best ≤ length_of (best_route cur best rs)
unfolding best_route
best_grows cur best [] = omega arith
best_grows cur best (r ∷ rs) =
    let now = (taken_grows cur best r).0 in
    let later = best_grows cur (taken cur best r) rs in omega (arith, now, later)

abbrev pub IsLongest : Text → List RouteDef → Option RouteDef → Type 0
IsLongest cur rs best =
    All (λ s. (not (is_route_of cur s) || leb (length s.href + 1) (length_of best)) ≡ true) rs

longer : (b : Bool) (n m k : ℕ) → (not b || leb n m) ≡ true → m ≤ k → (not b || leb n k) ≡ true
longer b n m k h le = ground arith

best_route-IsLongest :
    (cur : Text) (best : Option RouteDef) (rs : List RouteDef)
    → IsLongest cur rs (best_route cur best rs)
unfolding best_route
best_route-IsLongest cur best [] = tt
best_route-IsLongest cur best (r ∷ rs) = (
  longer (is_route_of cur r) (length r.href + 1) (length_of (taken cur best r))
      (length_of (best_route cur (taken cur best r) rs)) (taken_grows cur best r).1
      (best_grows cur (taken cur best r) rs),
  best_route-IsLongest cur (taken cur best r) rs,
)

best_route-IsFoundWith :
    (P : RouteDef → Type 0) (cur : Text) (best : Option RouteDef) (rs : List RouteDef)
    → ((i : ℕ) (s : RouteDef) → get_elem? rs i ≡ some s → is_route_of cur s ≡ true → P s)
    → IsFoundWith P best
    → IsFoundWith P (best_route cur best rs)
unfolding best_route
best_route-IsFoundWith P cur best [] h b = b
best_route-IsFoundWith P cur best (r ∷ rs) h b =
    best_route-IsFoundWith P cur (taken cur best r) rs (λ i s e. h (suc i) s e)
      (elim (Bool-cases (is_route_of cur r)) [
        | inl e ↦ elim (Bool-cases (is_better r best)) [
          | inl l ↦ rw (e, l) (h 0 r refl e)
          | inr l ↦ rw (e, l) b
        ]
        | inr e ↦ rw e b
      ])

-- The route of a path is a row of the table, it is of the path, and no row of the path has a longer
-- address; there is none exactly where no row is of the path.
pub route_for-IsLongest :
    (routes : List RouteDef) (pathname : Text)
    → IsLongest (norm_path pathname) routes (route_for routes pathname)
      × IsFoundWith
          (λ r.
            ((i : ℕ) × (get_elem? routes i ≡ some r)) × (is_route_of (norm_path pathname) r ≡ true))
          (route_for routes pathname)
unfolding route_for
route_for-IsLongest routes pathname = (
  best_route-IsLongest (norm_path pathname) none routes,
  best_route-IsFoundWith
      (λ r. ((i : ℕ) × (get_elem? routes i ≡ some r)) × (is_route_of (norm_path pathname) r ≡ true))
      (norm_path pathname) none routes (λ i s e m. ((i, e), m)) tt,
)

-- The result of a search is by falling scores, and the rows of one score are those of the table that
-- have it, in the table's order.
pub search_routes-IsRanked :
    (fold : Text → Text) (title : RouteDef → Text) (routes : List RouteDef) (query : Text) (k : ℕ)
    → let rank = score_rank fold title (fold query) in
      IsRanked rank (search_routes fold title routes query)
      × (of_rank rank k (search_routes fold title routes query)
          ≡ of_rank rank k (candidates fold title (fold query) routes))
unfolding search_routes
search_routes-IsRanked fold title routes query k =
    let rank = score_rank fold title (fold query) in
    let rows = candidates fold title (fold query) routes in
    (sort_by-IsRanked rank rows, of_rank-sort_by rank rows k)
