-- ===== src/Tests/OpsRuns.antt =====
-- Results of transactions that a page sees (web/src/lib/ops.ts).
use zte_u60_pro_mu5250_manag.Common.{◌≡◌, ◌≢◌, refl, none, some, [], ◌∷◌, arith}
use zte_u60_pro_mu5250_manag.Ops.Seen.{
  OpMark, OpStay, OpView, OpBlock, Page, fresh_page, end_of, observe_ops, OpShow, op_show,
}
use zte_u60_pro_mu5250_manag.Ops.Reads.{after_reads, new_result_is_shown}

abbrev done_view : OpView
done_view = record {
  op_id = "7";
  remaining_ms = some 4000;
  frozen = none;
  mark = some OpMark.ok;
  stay = OpStay.brief;
  acked = none;
  needs_ack = none;
}

abbrev done_block : OpBlock
done_block = record { active = none; last = some done_view; notice = none }

-- A page that was loaded when nothing had run.
abbrev quiet_page : Page
quiet_page = record fresh_page { last_at_load = some none }

abbrev old_block : OpBlock
old_block = record done_block { last = some (record done_view { op_id = "6" }) }

new_result_is_shown_example :
    op_show
      (after_reads
        (observe_ops
          (after_reads fresh_page ((some old_block, 10) ∷ (none, 20) ∷ []))
          (some done_block)
          100)
        ((some old_block, 150) ∷ (some done_block, 200) ∷ []))
      (some done_block)
      3099
    ≡ OpShow.brief done_view
new_result_is_shown_example =
    new_result_is_shown old_block done_block done_view 10 100 3099 ((none, 20) ∷ [])
      ((some old_block, 150) ∷ (some done_block, 200) ∷ []) refl refl (tt, tt) refl refl refl

abbrev ended_page : Page
ended_page = record quiet_page { ended_at = ("7", 50) ∷ [] }

ended_at_50 : end_of "7" ended_page.ended_at ≡ some 50
unfolding end_of
ended_at_50 = refl

was_read : ended_page.last_at_load ≢ none
was_read = λ h. ground arith
