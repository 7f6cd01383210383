-- ===== src/Tests/RoutesRuns.antt =====
-- The routes of the panel (web/src/lib/routes.ts).
use zte_u60_pro_mu5250_manag.Common.{ℕ, ◌≡◌, refl, some, List, [], ◌∷◌, get_elem?, true}
use zte_u60_pro_mu5250_manag.Common.Texts.{Text, codes}
use zte_u60_pro_mu5250_manag.Routes.Table.{
  Anchor, RouteDef, route_for, anchor_for, norm_path, is_route_of,
}
use zte_u60_pro_mu5250_manag.Routes.Found.{IsLongest, IsFoundWith, route_for-IsLongest}

abbrev row : Text → Text → Anchor → RouteDef
row href name anchor = record { href = href; fallback = name; anchor = anchor; aliases = [] }

abbrev table : List RouteDef
table =
    row (codes "/") (codes "home") Anchor.home
    ∷ row (codes "/sms") (codes "sms") Anchor.functions
    ∷ row (codes "/sms/forward") (codes "smsforward") Anchor.functions
    ∷ []

forward_run :
    route_for table (codes "/sms/forward/")
    ≡ some (row (codes "/sms/forward") (codes "smsforward") Anchor.functions)
unfolding route_for
forward_run = refl

anchor_runs :
    (anchor_for table (codes "/charts/") ≡ Anchor.charts)
    × (anchor_for table (codes "/none") ≡ Anchor.home)
unfolding anchor_for
anchor_runs = (refl, refl)

route_for-IsLongest_example :
    IsLongest (norm_path (codes "/sms/x")) table (route_for table (codes "/sms/x"))
    × IsFoundWith
        (λ r.
          ((i : ℕ) × (get_elem? table i ≡ some r))
          × (is_route_of (norm_path (codes "/sms/x")) r ≡ true))
        (route_for table (codes "/sms/x"))
route_for-IsLongest_example = route_for-IsLongest table (codes "/sms/x")
