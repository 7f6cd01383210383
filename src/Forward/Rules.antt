-- ===== src/Forward/Rules.antt =====
-- A forwarding rule and the draft in which it is edited
-- (web/src/app/(panel)/sms/forward/page.tsx, with the types of web/src/lib/api/schemas/sms.ts).
use zte_u60_pro_mu5250_manag.Common.{
  ℕ, Bool, true, false, ◌||◌, not, Option, none, some, List, [], ◌∷◌, ◌++◌, map, if◌then◌else◌,
  ◌==◌, filter,
}
use zte_u60_pro_mu5250_manag.Common.Texts.{Text, codes, trim, split, join}

pub data SmsFilter : Type 0 where
  all_messages : SmsFilter
  sender content : List Text → SmsFilter
  sender_and_content : List Text → List Text → SmsFilter

pub record HttpHeader : Type 0 where
  pub name : Text
  pub value : Text

pub data ForwardDestination : Type 0 where
  telegram : Text → Text → Bool → ForwardDestination
  webhook : Text → Text → List HttpHeader → ForwardDestination
  sms discord slack : Text → ForwardDestination
  ntfy : Text → Text → Option Text → ForwardDestination

pub record ForwardRule : Type 0 where
  pub id : ℕ
  pub name : Text
  pub enabled : Bool
  pub sms_filter : SmsFilter
  pub destination : ForwardDestination

pub data FilterType : Type 0 where
  of_all of_sender of_content of_both : FilterType

pub data DestType : Type 0 where
  to_telegram to_webhook to_sms to_ntfy to_discord to_slack : DestType

pub record Draft : Type 0 where
  pub id : Option ℕ
  pub name : Text
  pub enabled : Bool
  pub filter_type : FilterType
  pub patterns : Text
  pub keywords : Text
  pub destination : ForwardDestination

-- `emptyDest` and `newDraft`.
unfoldable pub empty_dest : DestType → ForwardDestination
empty_dest DestType.to_telegram = ForwardDestination.telegram [] [] false
empty_dest DestType.to_webhook = ForwardDestination.webhook [] (codes "POST") []
empty_dest DestType.to_sms = ForwardDestination.sms []
empty_dest DestType.to_ntfy = ForwardDestination.ntfy [] [] none
empty_dest DestType.to_discord = ForwardDestination.discord []
empty_dest DestType.to_slack = ForwardDestination.slack []

abbrev pub new_draft : Draft
new_draft = record {
  id = none;
  name = [];
  enabled = true;
  filter_type = FilterType.of_all;
  patterns = [];
  keywords = [];
  destination = ForwardDestination.telegram [] [] false;
}

abbrev pub type_of : SmsFilter → FilterType
type_of SmsFilter.all_messages = FilterType.of_all
type_of (SmsFilter.sender ps) = FilterType.of_sender
type_of (SmsFilter.content ks) = FilterType.of_content
type_of (SmsFilter.sender_and_content ps ks) = FilterType.of_both

abbrev pub patterns_of : SmsFilter → List Text
patterns_of (SmsFilter.sender ps) = ps
patterns_of (SmsFilter.sender_and_content ps ks) = ps
patterns_of f = []

abbrev pub keywords_of : SmsFilter → List Text
keywords_of (SmsFilter.content ks) = ks
keywords_of (SmsFilter.sender_and_content ps ks) = ks
keywords_of f = []

-- `draftOf`; `join` of no texts is the empty text of a filter without the list.
unfoldable pub draft_of : ForwardRule → Draft
unfolding join
draft_of r = record {
  id = some r.id;
  name = r.name;
  enabled = r.enabled;
  filter_type = type_of r.sms_filter;
  patterns = join (codes ", ") (patterns_of r.sms_filter);
  keywords = join (codes ", ") (keywords_of r.sms_filter);
  destination = r.destination;
}

abbrev pub not_empty : Text → Bool
not_empty [] = false
not_empty (c ∷ s) = true

-- `splitList`.
unfoldable pub split_list : Text → List Text
unfolding split trim
split_list s = filter not_empty (map trim (split 44 s))

abbrev pub filter_with : FilterType → List Text → List Text → SmsFilter
filter_with FilterType.of_all ps ks = SmsFilter.all_messages
filter_with FilterType.of_sender ps ks = SmsFilter.sender ps
filter_with FilterType.of_content ps ks = SmsFilter.content ks
filter_with FilterType.of_both ps ks = SmsFilter.sender_and_content ps ks

-- `filterOf`.
unfoldable pub filter_of : Draft → SmsFilter
unfolding split_list
filter_of d = filter_with d.filter_type (split_list d.patterns) (split_list d.keywords)

-- The token of a destination of ntfy, none where nothing is left of it.
abbrev pub token_of : Text → Option Text
token_of [] = none
token_of (c ∷ s) = some (c ∷ s)

abbrev pub trimmed_token : Option Text → Option Text
trimmed_token none = none
trimmed_token (some s) = token_of (trim s)

-- `destOf`.
unfoldable pub dest_of : ForwardDestination → ForwardDestination
unfolding trim
dest_of (ForwardDestination.telegram token chat silent) =
    ForwardDestination.telegram (trim token) (trim chat) silent
dest_of (ForwardDestination.webhook url method headers) =
    ForwardDestination.webhook (trim url) method headers
dest_of (ForwardDestination.sms number) = ForwardDestination.sms (trim number)
dest_of (ForwardDestination.ntfy url topic token) =
    ForwardDestination.ntfy (trim url) (trim topic) (trimmed_token token)
dest_of (ForwardDestination.discord url) = ForwardDestination.discord (trim url)
dest_of (ForwardDestination.slack url) = ForwardDestination.slack (trim url)

-- `missing` of `draftProblem`.
unfoldable pub missing : ForwardDestination → Bool
missing (ForwardDestination.telegram token chat silent) =
    not (not_empty token) || not (not_empty chat)
missing (ForwardDestination.webhook url method headers) = not (not_empty url)
missing (ForwardDestination.sms number) = not (not_empty number)
missing (ForwardDestination.ntfy url topic token) = not (not_empty url) || not (not_empty topic)
missing (ForwardDestination.discord url) = not (not_empty url)
missing (ForwardDestination.slack url) = not (not_empty url)

pub data Problem : Type 0 where
  no_name no_patterns no_keywords no_destination : Problem

abbrev pub no_texts : List Text → Bool
no_texts [] = true
no_texts (p ∷ ps) = false

abbrev pub lists_problem : SmsFilter → Option Problem
lists_problem SmsFilter.all_messages = none
lists_problem (SmsFilter.sender ps) = if no_texts ps then some Problem.no_patterns else none
lists_problem (SmsFilter.content ks) = if no_texts ks then some Problem.no_keywords else none
lists_problem (SmsFilter.sender_and_content ps ks) =
    if no_texts ps
    then some Problem.no_patterns
    else if no_texts ks
    then some Problem.no_keywords
    else none

abbrev pub first_problem : Bool → Option Problem → Bool → Option Problem
first_problem false lists lacks = some Problem.no_name
first_problem true (some p) lacks = some p
first_problem true none lacks = if lacks then some Problem.no_destination else none

-- `draftProblem`.
unfoldable pub draft_problem : Draft → Option Problem
unfolding trim filter_of dest_of missing
draft_problem d =
    first_problem (not_empty (trim d.name)) (lists_problem (filter_of d))
      (missing (dest_of d.destination))

-- `destTarget`.
abbrev pub without_slash : Text → Text
without_slash [] = []
without_slash (c ∷ []) = if c == 47 then [] else c ∷ []
without_slash (c ∷ d ∷ s) = c ∷ without_slash (d ∷ s)

unfoldable pub dest_target : ForwardDestination → Text
dest_target (ForwardDestination.telegram token chat silent) = codes "Telegram " ++ chat
dest_target (ForwardDestination.webhook url method headers) = method ++ (32 ∷ url)
dest_target (ForwardDestination.sms number) = number
dest_target (ForwardDestination.ntfy url topic token) = without_slash url ++ (47 ∷ topic)
dest_target (ForwardDestination.discord url) = codes "Discord"
dest_target (ForwardDestination.slack url) = codes "Slack"
