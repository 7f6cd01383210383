-- ===== src/Home/Words.antt =====
-- The words that the home page has for the signal, the connection and the time that the device is up
-- (web/src/lib/home.ts, web/src/lib/signalWords.ts, web/src/lib/connectState.ts). `lower` stands for
-- `toLowerCase`, `upper` for `toUpperCase`.
use zte_u60_pro_mu5250_manag.Common.{
  ℕ, ◌/◌, ◌%◌, Bool, true, false, not, ◌&&◌, ◌||◌, Option, none, some, [], ◌∷◌, if◌then◌else◌, ◌==◌,
  get_or_else, ltb,
}
use zte_u60_pro_mu5250_manag.Common.Texts.{Text, codes, text_eq}
use zte_u60_pro_mu5250_manag.Scheduler.Jobs.{starts_with}
use zte_u60_pro_mu5250_manag.Home.Signal.{Numbers}

-- `s.includes(word)`.
unfoldable pub has_word : Text → Text → Bool
unfolding starts_with
has_word word [] = starts_with word []
has_word word (c ∷ s) = starts_with word (c ∷ s) || has_word word s

pub data SigState : Type 0 where
  loading stale nosim no_signal weak good : SigState

-- `st && !st.includes("ready")`.
unfoldable pub no_sim : Option Text → Bool
unfolding has_word
no_sim none = false
no_sim (some []) = false
no_sim (some (c ∷ s)) = not (has_word (codes "ready") (c ∷ s))

abbrev pub is_negative : {N : Type 0} → Numbers N → Option N → Bool
is_negative numbers none = false
is_negative numbers (some n) = numbers.below n numbers.zero_value

-- `sigState` of the bars that there are, which are whole and not negative.
unfoldable pub sig_state :
    {N : Type 0} → Numbers N → Bool → Bool → Option Text → Option ℕ → Option N → SigState
unfolding no_sim
sig_state numbers ever_valid valid sim bars sinr =
    if not ever_valid
    then SigState.loading
    else if not valid
    then SigState.stale
    else if no_sim sim
    then SigState.nosim
    else if get_or_else bars 0 == 0
    then SigState.no_signal
    else if ltb (get_or_else bars 0) 3 || is_negative numbers sinr
    then SigState.weak
    else SigState.good

pub record Uptime : Type 0 where
  pub days : ℕ
  pub hours : ℕ
  pub minutes : ℕ

-- `uptimeParts`, of whole seconds.
unfoldable pub uptime_parts : Option ℕ → Option Uptime
uptime_parts none = none
uptime_parts (some secs) =
    if secs == 0
    then none
    else some (record {
      days = secs / 86400;
      hours = (secs % 86400) / 3600;
      minutes = (secs % 3600) / 60;
    })

pub data Word : Type 0 where
  no_signal_word good_word fair_word weak_word : Word

-- `rsrpWord`, `sinrWord` and `rsrqWord`: the levels that good and fair begin at.
unfoldable pub level_word : {N : Type 0} → Numbers N → N → N → Option N → Word
level_word numbers good_from fair_from none = Word.no_signal_word
level_word numbers good_from fair_from (some v) =
    if not (numbers.below v good_from)
    then Word.good_word
    else if not (numbers.below v fair_from)
    then Word.fair_word
    else Word.weak_word

abbrev pub rsrp_word : {N : Type 0} → Numbers N → Option N → Word
unfolding level_word
rsrp_word numbers v = level_word numbers (numbers.negative 100) (numbers.negative 110) v

abbrev pub sinr_word : {N : Type 0} → Numbers N → Option N → Word
unfolding level_word
sinr_word numbers v = level_word numbers (numbers.positive 13) numbers.zero_value v

abbrev pub rsrq_word : {N : Type 0} → Numbers N → Option N → Word
unfolding level_word
rsrq_word numbers v = level_word numbers (numbers.negative 10) (numbers.negative 15) v

-- `radioName`.
unfoldable pub radio_name : (Text → Text) → Option Text → Option Text
unfolding text_eq
radio_name upper none = none
radio_name upper (some type) =
    if text_eq (upper type) (codes "SA")
    then some (codes "5G SA")
    else if text_eq (upper type) (codes "NSA")
    then some (codes "5G NSA")
    else if text_eq (upper type) (codes "LTE")
    then some (codes "4G LTE")
    else elim type [ [] ↦ none | c ∷ s ↦ some (c ∷ s) ]

pub data ConnectKind : Type 0 where
  connected connecting disconnected unknown : ConnectKind

unfoldable pub kind_of_word : Text → ConnectKind
unfolding has_word
kind_of_word [] = ConnectKind.unknown
kind_of_word (c ∷ v) =
    if has_word (codes "disconnect") (c ∷ v)
    then ConnectKind.disconnected
    else if has_word (codes "connecting") (c ∷ v)
    then ConnectKind.connecting
    else if has_word (codes "connected") (c ∷ v)
    then ConnectKind.connected
    else ConnectKind.disconnected

-- `connectKind`.
unfoldable pub connect_kind : (Text → Text) → Option Text → ConnectKind
unfolding kind_of_word
connect_kind lower s = kind_of_word (lower (get_or_else s []))

-- `connectFamilies`.
unfoldable pub connect_families : (Text → Text) → Option Text → Option Text
unfolding has_word
connect_families lower s =
    let v = lower (get_or_else s []) in
    let four = has_word (codes "ipv4") v in
    let six = has_word (codes "ipv6") v in
    if four && six
    then some (codes "IPv4 + IPv6")
    else if four
    then some (codes "IPv4")
    else if six
    then some (codes "IPv6")
    else none

-- `enable` of the data switch: true, 1 or "1"; false, 0 or "0"; or anything else.
pub data Enable : Type 0 where
  is_one is_zero is_other : Enable

abbrev pub switch_of_call : ConnectKind → Option Bool
switch_of_call ConnectKind.connected = some true
switch_of_call ConnectKind.connecting = some true
switch_of_call ConnectKind.disconnected = some false
switch_of_call ConnectKind.unknown = none

-- `dataSwitchOn`.
unfoldable pub data_switch_on : (Text → Text) → Enable → Option Text → Option Bool
unfolding connect_kind
data_switch_on lower Enable.is_one status = some true
data_switch_on lower Enable.is_other status = none
data_switch_on lower Enable.is_zero status = switch_of_call (connect_kind lower status)
