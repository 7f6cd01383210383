-- ===== src/Diagnose/Page.antt =====
-- web/src/lib/diagnose.ts, with the types of its answer in web/src/lib/api/schemas/tools.ts and
-- `pick` of web/src/lib/i18n/pick.ts. `t key text` is the translation of a text, `t_with` of one
-- with a value put in. A list that is missing from an answer is an empty one.
use zte_u60_pro_mu5250_manag.Common.Sort.{sort_by}
use zte_u60_pro_mu5250_manag.Common.{
  ℕ, suc, min, Bool, true, false, ◌||◌, not, Option, none, some, List, [], ◌∷◌, String,
  if◌then◌else◌, str_eq, ltb, any, filter, length, get_or_else,
}
use zte_u60_pro_mu5250_manag.Api.Errors.{Lang}

pub data DiagLevel : Type 0 where
  pending running ok warn bad na info : DiagLevel

pub record DiagLayer : Type 0 where
  pub id : String
  pub level : DiagLevel
  pub detail : Option String
  pub detail_en : Option String
  pub counted : Bool

pub data RunState : Type 0 where
  waiting running done : RunState

pub data WaitingFor : Type 0 where
  scan register speedtest : WaitingFor

pub record DiagMain : Type 0 where
  pub layer : String
  pub level : Option DiagLevel
  pub text : Option String
  pub text_en : Option String
  pub action : Option String
  pub action_en : Option String
  pub action_to : String
  pub more : ℕ

pub record DiagRun : Type 0 where
  pub state : RunState
  pub step : Option ℕ
  pub steps : Option ℕ
  pub layers : List DiagLayer
  pub speed : Option DiagLayer

-- An answer: nothing, `{state:"idle"}` or a run.
pub data DiagGet : Type 0 where
  nothing idle : DiagGet
  run : DiagRun → DiagGet

pub data Tone : Type 0 where
  ok warn bad neutral : Tone

pub record RowView : Type 0 where
  pub tone : Option Tone
  pub word : String
  pub detail : String
  pub muted : Bool

pub record HeadView : Type 0 where
  pub tone : Tone
  pub text : String
  pub action : String
  pub more : String
  pub to : String

abbrev pub text_of : Option String → String
text_of none = ""
text_of (some s) = s

abbrev pub pick_en : Option String → Option String → String
pick_en zh none = text_of zh
pick_en zh (some en) = if str_eq en "" then text_of zh else en

-- `pick(zh, en, lang)`.
unfoldable pub pick : Option String → Option String → Lang → String
pick zh en Lang.zh = text_of zh
pick zh en Lang.en = pick_en zh en

-- `a || b`.
abbrev pub or_text : String → String → String
or_text a b = if str_eq a "" then b else a

module _ (t : String → String → String) (t_with : String → String → String → String)
    (show : ℕ → String) where
  -- `layerName`.
  unfoldable pub layer_name : String → String
  layer_name id =
      if str_eq id "wifi"
      then "Wi-Fi"
      else if str_eq id "signal"
      then t "diagnose.layer.signal" "Signal"
      else if str_eq id "limit"
      then t "diagnose.layer.limit" "Speed cap"
      else if str_eq id "link"
      then t "diagnose.layer.link" "Cellular link"
      else if str_eq id "crowd"
      then t "diagnose.layer.crowd" "Cell load"
      else if str_eq id "proxy"
      then t "diagnose.layer.proxy" "Proxy"
      else if str_eq id "speed"
      then t "diagnose.layer.speed" "Speed"
      else id

  abbrev pub row_of : DiagLevel → String → Bool → RowView
  row_of DiagLevel.pending detail muted = record {
    tone = none;
    word = t "diagnose.pending" "Waiting";
    detail = "";
    muted = true;
  }
  row_of DiagLevel.running detail muted = record {
    tone = none;
    word = t "diagnose.running" "Testing…";
    detail = "";
    muted = false;
  }
  row_of DiagLevel.ok detail muted = record {
    tone = some (if muted then Tone.neutral else Tone.ok);
    word = t "diagnose.ok" "OK";
    detail = detail;
    muted = muted;
  }
  row_of DiagLevel.warn detail muted = record {
    tone = some Tone.warn;
    word = t "diagnose.warn" "Suspect";
    detail = detail;
    muted = muted;
  }
  row_of DiagLevel.bad detail muted = record {
    tone = some Tone.bad;
    word = t "diagnose.bad" "Poor";
    detail = detail;
    muted = muted;
  }
  row_of DiagLevel.na detail muted = record {
    tone = some Tone.neutral;
    word =
        if str_eq detail ""
        then t "diagnose.na" "Can't check"
        else t_with "diagnose.naWhy" "Can't check · {{why}}" detail;
    detail = "";
    muted = true;
  }
  row_of DiagLevel.info detail muted = record {
    tone = none;
    word = detail;
    detail = "";
    muted = muted;
  }

  -- `rowView`.
  unfoldable pub row_view : DiagLayer → Lang → RowView
  unfolding pick
  row_view l lang = row_of l.level (pick l.detail l.detail_en lang) (not l.counted)

  abbrev pub head_tone : Option DiagLevel → Tone
  head_tone (some DiagLevel.bad) = Tone.bad
  head_tone (some DiagLevel.warn) = Tone.warn
  head_tone _ = Tone.neutral

  abbrev pub no_problem : String → String → HeadView
  no_problem text action = record {
    tone = Tone.ok;
    text = or_text text (t "diagnose.noProblem" "No problem found");
    action =
        or_text action (
          t "diagnose.noProblemAction"
            "The site itself may be slow; you can also add a speed test");
    more = "";
    to = "";
  }

  -- `headView`.
  unfoldable pub head_view : Option DiagMain → Lang → HeadView
  unfolding pick
  head_view none lang = no_problem "" ""
  head_view (some m) lang =
      if str_eq m.layer ""
      then no_problem (pick m.text m.text_en lang) (pick m.action m.action_en lang)
      else (record {
        tone = head_tone m.level;
        text = pick m.text m.text_en lang;
        action = pick m.action m.action_en lang;
        more = if ltb 0 m.more then t_with "diagnose.more" "+{{n}} more" (show m.more) else "";
        to = m.action_to;
      })

  -- `waitingFor`.
  unfoldable pub waiting_for : Option WaitingFor → String
  waiting_for none = ""
  waiting_for (some WaitingFor.scan) = t "diagnose.waitScan" "Searching for networks"
  waiting_for (some WaitingFor.register) = t "diagnose.waitRegister" "Registering on a network"
  waiting_for (some WaitingFor.speedtest) = t "diagnose.waitSpeedtest" "Speed test running"

-- A level that is neither pending nor running.
abbrev pub is_over : DiagLevel → Bool
is_over DiagLevel.pending = false
is_over DiagLevel.running = false
is_over _ = true

abbrev pub counted_layers : List DiagLayer → List DiagLayer
counted_layers ls = filter (λ l. l.counted) ls

abbrev pub positive_or : Option ℕ → ℕ → ℕ
positive_or none d = d
positive_or (some n) d = if ltb 0 n then n else d

-- `progress`: the steps taken and the steps in all.
unfoldable pub progress : DiagRun → ℕ × ℕ
progress r =
    let counted = counted_layers r.layers in
    let steps = positive_or r.steps (length counted) in
    let step = get_or_else r.step (length (filter (λ l. is_over l.level) counted)) in
    (min step steps, steps)

abbrev pub is_done_run : RunState → Bool
is_done_run RunState.done = true
is_done_run _ = false

abbrev pub is_running_level : Option DiagLevel → Bool
is_running_level (some DiagLevel.running) = true
is_running_level _ = false

-- `speedLevel` of a run.
unfoldable pub speed_level : DiagRun → Option DiagLevel
speed_level r = elim r.speed [ none ↦ none | some l ↦ some l.level ]

-- `isLive`.
unfoldable pub is_live : DiagGet → Bool
unfolding speed_level
is_live DiagGet.nothing = false
is_live DiagGet.idle = false
is_live (DiagGet.run r) = not (is_done_run r.state) || is_running_level (speed_level r)

-- `pollMs`.
unfoldable pub poll_ms : DiagGet → Bool → ℕ
unfolding is_live
poll_ms d expecting = if expecting || is_live d then 1000 else 0

abbrev pub layer_order : List String
layer_order = "wifi" ∷ "signal" ∷ "limit" ∷ "link" ∷ "crowd" ∷ "proxy" ∷ []

-- The place of an id in a list, its length where it is not there.
unfoldable pub rank_in : List String → String → ℕ
rank_in [] k = 0
rank_in (x ∷ xs) k = if str_eq x k then 0 else suc (rank_in xs k)

abbrev pub rank : DiagLayer → ℕ
rank l = rank_in layer_order l.id

-- `ls.sort((a, b) => rank(a.id) - rank(b.id))`.
unfoldable pub ordered_layers : List DiagLayer → List DiagLayer
unfolding sort_by
ordered_layers ls = sort_by rank ls

abbrev pub diagnose_verdicts : List String
diagnose_verdicts = "limit" ∷ "weak" ∷ "noise" ∷ "crowd" ∷ "narrow" ∷ "nodata" ∷ "stall" ∷ []

-- `wantsDiagnose`; an empty verdict counts as none.
unfoldable pub wants_diagnose : Option String → String → Bool
wants_diagnose verdict sig =
    if str_eq sig "loading" || str_eq sig "stale"
    then false
    else if str_eq (text_of verdict) ""
    then str_eq sig "weak" || str_eq sig "none"
    else any (λ v. str_eq v (text_of verdict)) diagnose_verdicts
