-- ===== src/Ops/Shown.antt =====
-- When a result of a transaction is shown (web/src/lib/ops.ts).
use text.Mathlib.TextEquality.{eq_iff}
use zte_u60_pro_mu5250_manag.Common.{
  ℕ, ◌-◌, ◌≤◌, ◌<◌, ◌≡◌, ◌≢◌, inl, inr, Bool, true, false, Option, none, some, String, str_eq,
  get_or_else, Option-cases, if◌then◌else◌, arith,
}
use zte_u60_pro_mu5250_manag.Ops.Seen.{
  OpView, OpBlock, OpStay, Page, fresh_page, has, end_of, observe_ops, note_acked, OpShow,
  show_last, op_show, remaining_now,
}

-- The first read after loading never replays a brief result, whatever the device reports.
pub first_read_shows_no_brief :
    (op : OpBlock) (now later : ℕ) (v : OpView)
    → op_show (observe_ops fresh_page (some op) now) (some op) later ≢ OpShow.brief v
unfolding op_show observe_ops
first_read_shows_no_brief op now later v h = ground arith

-- A brief result is shown only while nothing runs, within 3 seconds of the time at which this page
-- saw it end, and not once it was acknowledged here.
pub brief_is_recent :
    (p : Page) (op : OpBlock) (now : ℕ) (v : OpView)
    → op_show p (some op) now ≡ OpShow.brief v
    → (op.active ≡ none)
      × (op.last ≡ some v)
      × (v.stay ≡ OpStay.brief)
      × (has v.op_id p.acked_here ≡ false)
      × ((at : ℕ) × (end_of v.op_id p.ended_at ≡ some at) × (now - at < 3000))
unfolding op_show show_last
brief_is_recent p op now v h = elim (Option-cases (end_of v.op_id p.ended_at)) [
  | inl e ↦ absurd (ground arith)
  | inr (at, e) ↦ (ground arith, ground arith, ground arith, ground arith, (at, e, ground arith))
]

-- Once the page has read the transactions, the time at which a transaction was seen to end is
-- never changed by a later read.
pub end_of-observe_ops :
    (p : Page) (op : Option OpBlock) (now t : ℕ) (id : String)
    → p.last_at_load ≢ none
    → end_of id p.ended_at ≡ some t
    → end_of id (observe_ops p op now).ended_at ≡ some t
unfolding observe_ops
end_of-observe_ops p none now t id r e = e
end_of-observe_ops p (some op) now t id r e = elim (Option-cases op.last) [
  | inl q ↦ ground arith
  | inr (v, q) ↦ ground (arith, eq_iff v.op_id id)
]

-- A result that was acknowledged here is shown no more, and acknowledging it hides no other.
pub op_show-note_acked :
    (p : Page) (op : OpBlock) (v : OpView) (id : String) (now : ℕ)
    → op.active ≡ none
    → op.last ≡ some v
    → op_show (note_acked p id) (some op) now
      ≡ (if str_eq id v.op_id then OpShow.nothing else op_show p (some op) now)
unfolding op_show note_acked
op_show-note_acked p op v id now a e = ground (arith, eq_iff id v.op_id)

-- The countdown never shows more than the agent said and never grows; it stands still while it is
-- frozen.
pub remaining_now_falls :
    (v : OpView) (last_ok_at : Option ℕ) (frozen : Bool) (now later : ℕ)
    → now ≤ later
    → (remaining_now v last_ok_at frozen later ≤ remaining_now v last_ok_at frozen now)
      × (remaining_now v last_ok_at frozen now ≤ get_or_else v.remaining_ms 0)
      × (remaining_now v last_ok_at true later ≡ get_or_else v.remaining_ms 0)
unfolding remaining_now
remaining_now_falls v none frozen now later h = ground arith
remaining_now_falls v (some at) frozen now later h = ground arith
