-- ===== src/Diagnose/Order.antt =====
-- The rows and the progress of a diagnosis (web/src/lib/diagnose.ts).
use zte_u60_pro_mu5250_manag.Common.{ℕ, ◌≤◌, ◌≡◌, Bool, none, List, [], ◌∷◌, filter, length, arith}
use zte_u60_pro_mu5250_manag.Common.Sort.{IsRanked, of_rank, sort_by-IsRanked, of_rank-sort_by}
use zte_u60_pro_mu5250_manag.Diagnose.Page.{
  DiagLayer, DiagRun, progress, rank, ordered_layers, counted_layers, is_over,
}

-- The rows are shown by rank, and rows of one rank (the unknown ones are of the last) keep the
-- order that the agent gave them; so no row is lost or shown twice.
pub ordered_layers-IsRanked :
    (ls : List DiagLayer) (r : ℕ)
    → IsRanked rank (ordered_layers ls) × (of_rank rank r (ordered_layers ls) ≡ of_rank rank r ls)
unfolding ordered_layers
ordered_layers-IsRanked ls r = (sort_by-IsRanked rank ls, of_rank-sort_by rank ls r)

length-filter : (p : DiagLayer → Bool) (xs : List DiagLayer) → length (filter p xs) ≤ length xs
length-filter p [] = omega arith
length-filter p (x ∷ xs) = ground (arith, length-filter p xs)

-- Where the agent gives no counts, the progress of a run is the number of counted rows that are
-- over, out of all counted rows, and never passes it.
pub progress_lem :
    (r : DiagRun)
    → r.step ≡ none
    → r.steps ≡ none
    → (progress r ≡ (
      length (filter (λ l. is_over l.level) (counted_layers r.layers)),
      length (counted_layers r.layers),
    ))
      × ((progress r).0 ≤ (progress r).1)
unfolding progress
progress_lem r a b =
    (ground (arith, length-filter (λ l. is_over l.level) (counted_layers r.layers)), ground arith)
