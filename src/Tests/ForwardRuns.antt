-- ===== src/Tests/ForwardRuns.antt =====
-- Forwarding rules (web/src/app/(panel)/sms/forward/page.tsx).
use zte_u60_pro_mu5250_manag.Common.{ℕ, ◌≡◌, refl, Bool, true, some, none, [], ◌∷◌}
use zte_u60_pro_mu5250_manag.Common.Texts.{codes}
use zte_u60_pro_mu5250_manag.Forward.Rules.{
  SmsFilter, ForwardDestination, FilterType, Draft, Problem, draft_of, draft_problem, new_draft,
  dest_target,
}
use zte_u60_pro_mu5250_manag.Forward.Saved.{RuleBody, SaveRule, ask_save_rule, body_of_draft}
use zte_u60_pro_mu5250_manag.Forward.Tidy.{rule_with, body_of_draft-saved}
use zte_u60_pro_mu5250_manag.Forward.Retry.{ForwardLogEntry, Target}

abbrev draft : Draft
draft = record new_draft {
  name = codes " Bank ";
  filter_type = FilterType.of_sender;
  patterns = codes "95588, ,955*";
  destination = ForwardDestination.sms (codes " 123 ");
}

abbrev body : RuleBody
body = record {
  name = codes "Bank";
  enabled = true;
  sms_filter = SmsFilter.sender (codes "95588" ∷ codes "955*" ∷ []);
  destination = ForwardDestination.sms (codes "123");
}

save_runs :
    (ask_save_rule draft ≡ SaveRule.create body)
    × (draft_problem new_draft ≡ some Problem.no_name)
    × (dest_target (ForwardDestination.ntfy (codes "http://n/") (codes "t") none)
        ≡ codes "http://n/t")
unfolding ask_save_rule dest_target
save_runs = (refl, refl, refl)

-- A keyword with a comma, which the page cannot have made, becomes two by an edit.
comma_run :
    body_of_draft
      (draft_of (rule_with 1 (record body { sms_filter = SmsFilter.content (codes "a,b" ∷ []) })))
    ≡ record body { sms_filter = SmsFilter.content (codes "a" ∷ codes "b" ∷ []) }
unfolding body_of_draft draft_of
comma_run = refl

body_of_draft-saved_example :
    body_of_draft (draft_of (rule_with 3 (body_of_draft draft))) ≡ body_of_draft draft
body_of_draft-saved_example = body_of_draft-saved draft 3

abbrev entry : ℕ → ℕ → Bool → ForwardLogEntry
entry sms rule success = record {
  sms_id = sms;
  rule_id = rule;
  sender = codes "95588";
  success = success;
  error = none;
}

abbrev target : Target
target = record { sms_id = 7; rule_id = 1; sender = codes "95588" }
