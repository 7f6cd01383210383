-- ===== src/Forward/Saved.antt =====
-- What the forwarding page sends, and how it checks that the device has taken it
-- (web/src/app/(panel)/sms/forward/page.tsx).
use zte_u60_pro_mu5250_manag.Common.{
  ℕ, Bool, true, false, ◌&&◌, ◌||◌, not, Option, none, some, List, [], ◌∷◌, if◌then◌else◌, bool_eq,
  ltb, ◌==◌, length, any, filter,
}
use zte_u60_pro_mu5250_manag.Common.Texts.{Text, text_eq, trim}
use zte_u60_pro_mu5250_manag.Forward.Rules.{
  SmsFilter, ForwardDestination, ForwardRule, Draft, Problem, filter_of, dest_of, draft_problem,
}

pub record RuleBody : Type 0 where
  pub name : Text
  pub enabled : Bool
  pub sms_filter : SmsFilter
  pub destination : ForwardDestination

-- `body` of `askSaveRule`.
unfoldable pub body_of_draft : Draft → RuleBody
unfolding trim filter_of dest_of
body_of_draft d = record {
  name = trim d.name;
  enabled = d.enabled;
  sms_filter = filter_of d;
  destination = dest_of d.destination;
}

-- `sameJson` of two lists of texts, and of two filters.
unfoldable pub same_texts : List Text → List Text → Bool
unfolding text_eq
same_texts [] [] = true
same_texts [] (t ∷ ts) = false
same_texts (s ∷ ss) [] = false
same_texts (s ∷ ss) (t ∷ ts) = text_eq s t && same_texts ss ts

unfoldable pub same_filter : SmsFilter → SmsFilter → Bool
unfolding same_texts
same_filter SmsFilter.all_messages SmsFilter.all_messages = true
same_filter (SmsFilter.sender ps) (SmsFilter.sender qs) = same_texts ps qs
same_filter (SmsFilter.content ks) (SmsFilter.content ls) = same_texts ks ls
same_filter (SmsFilter.sender_and_content ps ks) (SmsFilter.sender_and_content qs ls) =
    same_texts ps qs && same_texts ks ls
same_filter f g = false

abbrev pub dest_type : ForwardDestination → ℕ
dest_type (ForwardDestination.telegram token chat silent) = 0
dest_type (ForwardDestination.webhook url method headers) = 1
dest_type (ForwardDestination.sms number) = 2
dest_type (ForwardDestination.ntfy url topic token) = 3
dest_type (ForwardDestination.discord url) = 4
dest_type (ForwardDestination.slack url) = 5

-- `matches` of `askSaveRule`.
unfoldable pub matches : RuleBody → ForwardRule → Bool
unfolding text_eq same_filter
matches body r =
    text_eq r.name body.name
    && bool_eq r.enabled body.enabled
    && same_filter r.sms_filter body.sms_filter
    && (dest_type r.destination == dest_type body.destination)

-- The check of a new rule: more rules match than before.
unfoldable pub check_create : RuleBody → List ForwardRule → List ForwardRule → Bool
unfolding matches
check_create body before rules =
    ltb (length (filter (matches body) before)) (length (filter (matches body) rules))

-- `rules.find((x) => x.id === id)`.
unfoldable pub find_rule : ℕ → List ForwardRule → Option ForwardRule
find_rule id [] = none
find_rule id (r ∷ rs) = if r.id == id then some r else find_rule id rs

abbrev pub found_and : (ForwardRule → Bool) → Option ForwardRule → Bool
found_and test none = false
found_and test (some r) = test r

-- The check of a changed rule.
unfoldable pub check_update : ℕ → RuleBody → List ForwardRule → Bool
unfolding find_rule matches
check_update id body rules = found_and (matches body) (find_rule id rules)

-- The checks of `askToggle` and of `askDeleteRule`.
unfoldable pub check_toggle : ℕ → Bool → List ForwardRule → Bool
unfolding find_rule
check_toggle id enabled rules = found_and (λ r. bool_eq r.enabled enabled) (find_rule id rules)

unfoldable pub check_delete : ℕ → List ForwardRule → Bool
check_delete id rules = not (any (λ r. r.id == id) rules)

pub data SaveRule : Type 0 where
  wrong : Problem → SaveRule
  create : RuleBody → SaveRule
  update : ℕ → RuleBody → SaveRule

abbrev pub save_as : Option ℕ → RuleBody → SaveRule
save_as none body = SaveRule.create body
save_as (some id) body = SaveRule.update id body

abbrev pub save_unless : Option Problem → SaveRule → SaveRule
save_unless none save = save
save_unless (some p) save = SaveRule.wrong p

-- `askSaveRule` of a draft.
unfoldable pub ask_save_rule : Draft → SaveRule
unfolding draft_problem body_of_draft
ask_save_rule d = save_unless (draft_problem d) (save_as d.id (body_of_draft d))

-- The settings of the forwarder, without its rules.
pub record ForwardSettings : Type 0 where
  pub enabled : Bool
  pub poll_interval_secs : ℕ
  pub mark_read_after_forward : Bool
  pub delete_after_forward : Bool

-- `askSave`: `poll` is the number that was typed, none where it is no whole number.
unfoldable pub ask_save : Option ℕ → ForwardSettings → Option ForwardSettings
ask_save none shown = none
ask_save (some n) shown =
    if ltb n 10 || ltb 3600 n then none else some (record shown { poll_interval_secs = n })

-- The check of `askSave`.
unfoldable pub check_settings : ForwardSettings → ForwardSettings → Bool
check_settings want c =
    bool_eq c.enabled want.enabled
    && (c.poll_interval_secs == want.poll_interval_secs)
    && bool_eq c.mark_read_after_forward want.mark_read_after_forward
    && bool_eq c.delete_after_forward want.delete_after_forward
