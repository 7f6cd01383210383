-- ===== src/Ops/Journal.antt =====
-- The wording of transactions and of the change log (web/src/lib/ops.ts). `show` is the text that
-- JavaScript gives a number.
use Prim.Native.String
use zte_u60_pro_mu5250_manag.Common.{
  ℕ, ◌+◌, ◌*◌, ◌/◌, ◌%◌, ◌≤◌, ◌<◌, Bool, false, not, Option, none, some, List, [], ◌∷◌, String,
  if◌then◌else◌, str_eq, ltb, any, filter, get_or_else, arith,
}
use zte_u60_pro_mu5250_manag.Api.Errors.{Lang}
use zte_u60_pro_mu5250_manag.Ops.Seen.{OpMark, OpStay}

pub data Tone : Type 0 where
  ok warn bad neutral : Tone

pub record UndoRequest : Type 0 where
  pub action : String
  pub undo : Bool

pub record UndoView : Type 0 where
  pub ok : Bool
  pub label_zh : String
  pub label_en : String
  pub why_zh : Option String
  pub why_en : Option String
  pub request : Option UndoRequest

pub record JournalEntry : Type 0 where
  pub op_id : Option String
  pub action : Option String
  pub item : Option String
  pub source : Option String
  pub t : Option String
  pub undo : Option Bool
  pub reason : Option String
  pub what_zh : Option String
  pub what_en : Option String
  pub change_zh : Option String
  pub change_en : Option String
  pub result_zh : Option String
  pub result_en : Option String
  pub source_zh : Option String
  pub source_en : Option String
  pub mark : Option OpMark
  pub hide : Option Bool
  pub undo_view : Option UndoView

pub record JournalOwner : Type 0 where
  pub source : String
  pub user : Bool
  pub undo : Bool
  pub value : String
  pub op_id : Option String
  pub ts : ℕ
  pub t : String

pub record Journal : Type 0 where
  pub entries : List JournalEntry
  pub owners : List (String × JournalOwner)

-- `isFinal`.
unfoldable pub is_final : String → Bool
is_final phase =
    any (λ p. str_eq p phase)
      ("confirmed" ∷ "unverified" ∷ "rolled_back" ∷ "not_applied" ∷ "rollback_failed" ∷ "cancelled"
        ∷ [])

-- `Math.ceil(ms / 1000)`, and the minutes and seconds of it.
abbrev pub seconds_up : ℕ → ℕ
seconds_up ms = (ms + 999) / 1000

unfoldable pub clock_parts : ℕ → ℕ × ℕ
clock_parts ms = (seconds_up ms / 60, seconds_up ms % 60)

-- `markTone`, `stay` being `none` where it is not given.
abbrev pub tone_of : Option OpMark → Tone
tone_of none = Tone.neutral
tone_of (some OpMark.ok) = Tone.ok
tone_of (some OpMark.warn) = Tone.warn
tone_of (some OpMark.bad) = Tone.bad

unfoldable pub mark_tone : Option OpMark → Option OpStay → Tone
mark_tone mark (some OpStay.alert) = Tone.bad
mark_tone mark _ = tone_of mark

abbrev pub source_names : List (String × String × String)
source_names =
    ("screen", "触屏", "Screen")
    ∷ ("legacy", "触屏", "Screen")
    ∷ ("web", "网页", "Web")
    ∷ ("scenario", "情景", "Scene")
    ∷ ("scheduler", "定时任务", "Schedule")
    ∷ ("auto", "自动", "Auto")
    ∷ ("guard", "自动恢复", "Auto-recovery")
    ∷ []

abbrev pub name_in : Lang → String → String → String
name_in Lang.zh zh en = zh
name_in Lang.en zh en = en

unfoldable pub named : List (String × String × String) → String → Lang → String
named [] source lang = source
named ((s, zh, en) ∷ ns) source lang =
    if str_eq s source then name_in lang zh en else named ns source lang

-- `sourceName`: a name of the table, else the source itself.
unfoldable pub source_name : Option String → Lang → String
unfolding named
source_name none lang = ""
source_name (some source) lang = named source_names source lang

-- `visibleEntries`.
unfoldable pub visible_entries : Option Journal → List JournalEntry
visible_entries none = []
visible_entries (some j) = filter (λ e. not (get_or_else e.hide false)) j.entries

abbrev pub key_of_fields : JournalEntry → String
key_of_fields e = String.◌++◌ "t:" (
    String.◌++◌ (get_or_else e.t "") (
      String.◌++◌ "|" (
        String.◌++◌ (get_or_else e.action "") (
          String.◌++◌ "|" (
            String.◌++◌ (get_or_else e.source "")
              (String.◌++◌ "|" (get_or_else e.result_zh "")))))))

-- `entryKey`: the id, where it is not empty.
abbrev pub key_of : JournalEntry → Option String → String
key_of e none = key_of_fields e
key_of e (some id) = if str_eq id "" then key_of_fields e else String.◌++◌ "op:" id

unfoldable pub entry_key : JournalEntry → String
entry_key e = key_of e e.op_id

module _ (show : ℕ → String) where
  -- `padStart(2, "0")` of a number below 60.
  abbrev pub pad_clock : ℕ → String
  pad_clock n = if ltb n 10 then String.◌++◌ "0" (show n) else show n

  -- `fmtClock`, of a time that is not negative.
  unfoldable pub fmt_clock : ℕ → String
  unfolding clock_parts
  fmt_clock ms =
      String.◌++◌ (show (clock_parts ms).0) (String.◌++◌ ":" (pad_clock (clock_parts ms).1))

-- The clock shows the time that is left, rounded up to a second, with fewer than 60 seconds.
pub clock_parts_lem :
    (ms : ℕ)
    → (ms ≤ 1000 * (60 * (clock_parts ms).0 + (clock_parts ms).1))
      × (1000 * (60 * (clock_parts ms).0 + (clock_parts ms).1) < ms + 1000)
      × ((clock_parts ms).1 < 60)
unfolding clock_parts
clock_parts_lem ms = (omega arith, omega arith, omega arith)
