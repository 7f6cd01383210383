-- ===== src/Ops/Seen.antt =====
-- What this page has seen of the transactions (web/src/lib/ops.ts). A view keeps the fields that
-- the logic reads; the texts are datad's and are shown as they are. Times are browser
-- milliseconds.
use zte_u60_pro_mu5250_manag.Common.{
  ℕ, ◌-◌, Bool, true, false, ◌&&◌, ◌||◌, not, Option, none, some, List, [], ◌∷◌, String,
  if◌then◌else◌, ltb, str_eq, any, get_or_else, is_some,
}

pub data OpMark : Type 0 where
  ok warn bad : OpMark

pub data OpStay : Type 0 where
  live brief sticky alert hidden : OpStay

pub record OpView : Type 0 where
  pub op_id : String
  pub remaining_ms : Option ℕ
  pub frozen : Option Bool
  pub mark : Option OpMark
  pub stay : OpStay
  pub acked : Option Bool
  pub needs_ack : Option Bool

pub record OpBlock : Type 0 where
  pub active : Option OpView
  pub last : Option OpView
  pub notice : Option String

pub data Datad : Type 0 where
  up stuck down : Datad

pub record OpsState : Type 0 where
  pub op : Option OpBlock
  pub datad : Datad

-- The module's variables. `last_at_load` is `none` while nothing was read.
pub record Page : Type 0 where
  pub seen_active : List String
  pub ended_at : List (String × ℕ)
  pub acked_here : List String
  pub notice_acked : Bool
  pub last_at_load : Option (Option String)

-- `resetOpsSeen`, and a page that was just loaded.
abbrev pub fresh_page : Page
fresh_page = record {
  seen_active = [];
  ended_at = [];
  acked_here = [];
  notice_acked = false;
  last_at_load = none;
}

abbrev pub brief_ms : ℕ
brief_ms = 3000

unfoldable pub has : String → List String → Bool
has k xs = any (λ x. str_eq x k) xs

unfoldable pub end_of : String → List (String × ℕ) → Option ℕ
end_of k [] = none
end_of k ((j, t) ∷ m) = if str_eq j k then some t else end_of k m

abbrev pub note_active : Page → Option OpView → Page
note_active p none = p
note_active p (some v) = record p { seen_active = v.op_id ∷ p.seen_active }

abbrev pub last_id : OpBlock → Option String
last_id op = elim op.last [ none ↦ none | some v ↦ some v.op_id ]

-- `lastId !== lastAtLoad`, for an id that is there.
abbrev pub is_other : Option String → String → Bool
is_other none id = true
is_other (some j) id = not (str_eq j id)

abbrev pub end_now : Page → String → ℕ → Page
end_now p id now = record p { ended_at = (id, now) ∷ p.ended_at }

-- `lastId &&`: an empty id is none.
abbrev pub named_op : String → Bool
named_op id = not (str_eq id "")

-- The first read: it replays nothing, unless a write of this page was seen to end in it.
unfoldable pub observe_first : Page → OpBlock → ℕ → Page
unfolding has
observe_first p op now =
    let q : Page = record p { last_at_load = some (last_id op) } in
    elim op.last [
      | none ↦ q
      | some v ↦
          if named_op v.op_id && (has v.op_id p.seen_active && not (is_some op.active))
          then end_now q v.op_id now
          else q
    ]

-- A later read, `at_load` being the id of the first.
unfoldable pub observe_later : Page → OpBlock → Option String → ℕ → Page
unfolding has end_of
observe_later p op at_load now = elim op.last [
  | none ↦ p
  | some v ↦
      if named_op v.op_id
        && not (is_some (end_of v.op_id p.ended_at))
        && (is_other at_load v.op_id || has v.op_id p.seen_active)
      then end_now p v.op_id now
      else p
]

-- `observeOps`.
unfoldable pub observe_ops : Page → Option OpBlock → ℕ → Page
unfolding observe_first observe_later
observe_ops p none now = p
observe_ops p (some op) now =
    let q = note_active p op.active in
    elim p.last_at_load [
      | none ↦ observe_first q op now
      | some at_load ↦ observe_later q op at_load now
    ]

-- `noteMine`, of a write that this page has sent.
unfoldable pub note_mine : Page → Option String → Page
note_mine p none = p
note_mine p (some id) = if str_eq id "" then p else record p { seen_active = id ∷ p.seen_active }

unfoldable pub note_acked : Page → String → Page
note_acked p id = record p { acked_here = id ∷ p.acked_here }

unfoldable pub note_notice_acked : Page → Page
note_notice_acked p = record p { notice_acked = true }

-- `opNotice`: whether the one notice that this page knows is to be shown.
unfoldable pub op_notice : Page → Option OpBlock → Bool
op_notice p none = false
op_notice p (some op) =
    not p.notice_acked && (elim op.notice [ none ↦ false | some n ↦ str_eq n "rollback_on" ])

pub data OpShow : Type 0 where
  nothing : OpShow
  live brief sticky alert : OpView → OpShow

-- `l.needs_ack ?? !l.acked`.
abbrev pub is_waiting : OpView → Bool
is_waiting v = get_or_else v.needs_ack (not (get_or_else v.acked false))

-- What is shown of a result that was not acknowledged here, by its `stay`.
unfoldable pub show_last : Page → OpView → OpStay → ℕ → OpShow
unfolding end_of
show_last p v OpStay.alert now = if is_waiting v then OpShow.alert v else OpShow.nothing
show_last p v OpStay.sticky now = if is_waiting v then OpShow.sticky v else OpShow.nothing
show_last p v OpStay.brief now = elim (end_of v.op_id p.ended_at) [
  | none ↦ OpShow.nothing
  | some at ↦ if ltb (now - at) brief_ms then OpShow.brief v else OpShow.nothing
]
show_last p v _ now = OpShow.nothing

-- `opShow`.
unfoldable pub op_show : Page → Option OpBlock → ℕ → OpShow
unfolding show_last has
op_show p none now = OpShow.nothing
op_show p (some op) now = elim op.active [
  | some v ↦ OpShow.live v
  | none ↦ elim op.last [
    | none ↦ OpShow.nothing
    | some l ↦ if has l.op_id p.acked_here then OpShow.nothing else show_last p l l.stay now
  ]
]

abbrev pub stall_ms : ℕ
stall_ms = 20000

abbrev pub is_up : Datad → Bool
is_up Datad.up = true
is_up _ = false

abbrev pub active_frozen : Option OpBlock → Bool
active_frozen none = false
active_frozen (some op) = elim op.active [ none ↦ false | some v ↦ get_or_else v.frozen false ]

-- `countdownFrozen`.
unfoldable pub countdown_frozen : Option OpsState → Option ℕ → ℕ → Bool
countdown_frozen none last_ok_at now = true
countdown_frozen (some s) last_ok_at now =
    if not (is_up s.datad) || active_frozen s.op
    then true
    else (elim last_ok_at [ none ↦ true | some at ↦ ltb stall_ms (now - at) ])

-- `remainingNow`.
unfoldable pub remaining_now : OpView → Option ℕ → Bool → ℕ → ℕ
remaining_now v none frozen now = get_or_else v.remaining_ms 0
remaining_now v (some at) frozen now =
    let ms = get_or_else v.remaining_ms 0 in if frozen then ms else ms - (now - at)
