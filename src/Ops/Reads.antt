-- ===== src/Ops/Reads.antt =====
-- What a page shows of a result, over all reads since it was loaded (web/src/lib/ops.ts).
use text.Mathlib.TextEquality.{eq_iff}
use zte_u60_pro_mu5250_manag.Common.{
  ℕ, ◌-◌, ◌≡◌, ◌≢◌, inl, inr, true, false, Option, none, some, List, [], ◌∷◌, String, str_eq, All,
  Option-cases, if◌then◌else◌, ltb, arith,
}
use zte_u60_pro_mu5250_manag.Ops.Seen.{
  OpView, OpBlock, OpStay, Page, fresh_page, has, end_of, observe_ops, OpShow, op_show, show_last,
  last_id, is_other, named_op, brief_ms,
}
use zte_u60_pro_mu5250_manag.Ops.Shown.{end_of-observe_ops}

-- A read of the transactions and its time.
abbrev pub Read : Type 0
Read = Option OpBlock × ℕ

-- The page after some reads, the first one first.
unfoldable pub after_reads : Page → List Read → Page
after_reads p [] = p
after_reads p ((op, t) ∷ reads) = after_reads (observe_ops p op t) reads

-- The read does not tell of this transaction as the last one.
abbrev pub IsBefore : String → Option OpBlock → Type 0
IsBefore id none = Unit
IsBefore id (some op) = elim op.last [ none ↦ Unit | some w ↦ str_eq w.op_id id ≡ false ]

-- A page that was loaded before the transaction ended, and has not read that it did.
abbrev IsWaiting : Option String → String → Page → Type 0
IsWaiting at_load id p =
    (p.last_at_load ≡ some at_load)
    × (is_other at_load id ≡ true)
    × (end_of id p.ended_at ≡ none)
    × (p.acked_here ≡ [])

-- A page that has read at this time that the transaction ended.
abbrev HasEnded : String → ℕ → Page → Type 0
HasEnded id at p = (p.last_at_load ≢ none) × (end_of id p.ended_at ≡ some at) × (p.acked_here ≡ [])

first_read :
    (id : String) (op : OpBlock) (t : ℕ)
    → IsBefore id (some op)
    → IsWaiting (last_id op) id (observe_ops fresh_page (some op) t)
unfolding observe_ops
first_read id op t h = elim (Option-cases op.last) [
  | inl e ↦ (ground arith, ground arith, ground arith, ground arith)
  | inr (w, e) ↦ (ground arith, ground arith, ground arith, ground arith)
]

later_read :
    (at_load : Option String) (id : String) (p : Page) (op : Option OpBlock) (t : ℕ)
    → IsBefore id op
    → IsWaiting at_load id p
    → IsWaiting at_load id (observe_ops p op t)
unfolding observe_ops
later_read at_load id p none t h w = w
later_read at_load id p (some op) t h w = elim (Option-cases op.last) [
  | inl e ↦ (ground arith, ground arith, ground arith, ground arith)
  | inr (v, e) ↦ (ground arith, ground arith, ground arith, ground arith)
]

-- The read that tells of the end.
ending_read :
    (at_load : Option String) (p : Page) (op : OpBlock) (v : OpView) (t : ℕ)
    → op.last ≡ some v
    → named_op v.op_id ≡ true
    → IsWaiting at_load v.op_id p
    → HasEnded v.op_id t (observe_ops p (some op) t)
unfolding observe_ops
ending_read at_load p op v t e n w =
    (λ x. ground arith, ground (arith, eq_iff v.op_id v.op_id), ground arith)

read_after :
    (id : String) (at : ℕ) (p : Page) (op : Option OpBlock) (t : ℕ)
    → HasEnded id at p
    → HasEnded id at (observe_ops p op t)
unfolding observe_ops
read_after id at p none t h = h
read_after id at p (some op) t (loaded, ended, acked) = elim (Option-cases op.last) [
  | inl e ↦ (λ x. ground arith, end_of-observe_ops p (some op) t at id loaded ended, ground arith)
  | inr (v, e) ↦
      (λ x. ground arith, end_of-observe_ops p (some op) t at id loaded ended, ground arith)
]

IsWaiting-after_reads :
    (at_load : Option String) (id : String) (p : Page) (reads : List Read)
    → All (λ r. IsBefore id r.0) reads
    → IsWaiting at_load id p
    → IsWaiting at_load id (after_reads p reads)
unfolding after_reads
IsWaiting-after_reads at_load id p [] h w = w
IsWaiting-after_reads at_load id p ((op, t) ∷ reads) (h, hs) w =
    IsWaiting-after_reads at_load id (observe_ops p op t) reads hs
      (later_read at_load id p op t h w)

HasEnded-after_reads :
    (id : String) (at : ℕ) (p : Page) (reads : List Read)
    → HasEnded id at p
    → HasEnded id at (after_reads p reads)
unfolding after_reads
HasEnded-after_reads id at p [] w = w
HasEnded-after_reads id at p ((op, t) ∷ reads) w =
    HasEnded-after_reads id at (observe_ops p op t) reads (read_after id at p op t w)

shown_while_brief :
    (p : Page) (op : OpBlock) (v : OpView) (at now : ℕ)
    → op.active ≡ none
    → op.last ≡ some v
    → v.stay ≡ OpStay.brief
    → HasEnded v.op_id at p
    → op_show p (some op) now ≡ (if ltb (now - at) brief_ms then OpShow.brief v else OpShow.nothing)
unfolding op_show show_last has
shown_while_brief p op v at now a e b (loaded, ended, acked) = ground arith

-- A brief result with an id that ends after the page was loaded, on a page that only reads: the read
-- at `now` tells of it as the last transaction while nothing runs, and no read before did. Whatever is
-- read after that, it is shown for 3 seconds from `now` while nothing runs, and then no more.
pub new_result_is_shown :
    (first op : OpBlock) (v : OpView) (loaded now later : ℕ) (before more : List Read)
    → named_op v.op_id ≡ true
    → IsBefore v.op_id (some first)
    → All (λ r. IsBefore v.op_id r.0) before
    → op.active ≡ none
    → op.last ≡ some v
    → v.stay ≡ OpStay.brief
    → let p = after_reads fresh_page ((some first, loaded) ∷ before) in
      op_show (after_reads (observe_ops p (some op) now) more) (some op) later
      ≡ (if ltb (later - now) brief_ms then OpShow.brief v else OpShow.nothing)
unfolding after_reads
new_result_is_shown first op v loaded now later before more n f hs a e b =
    let id = v.op_id in
    let start = observe_ops fresh_page (some first) loaded in
    let p = after_reads start before in
    let waiting =
      IsWaiting-after_reads (last_id first) id start before hs (first_read id first loaded f) in
    let ended = ending_read (last_id first) p op v now e n waiting in
    let q = after_reads (observe_ops p (some op) now) more in
    shown_while_brief q op v now later a e b
      (HasEnded-after_reads id now (observe_ops p (some op) now) more ended)
