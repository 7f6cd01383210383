-- ===== src/Forward/Edited.antt =====
-- Drafts of forwarding rules (web/src/app/(panel)/sms/forward/page.tsx).
use zte_u60_pro_mu5250_manag.Common.{
  ◌≡◌, ◌∙◌, refl, ap, true, false, List, [], ◌∷◌, map, filter, ◌==◌, All,
}
use zte_u60_pro_mu5250_manag.Common.Texts.{
  Text, codes, trim, trim-space, split, split-part, split-last, join,
}
use zte_u60_pro_mu5250_manag.Forward.Rules.{
  SmsFilter, ForwardRule, draft_of, filter_of, split_list, dest_of, not_empty, patterns_of,
  keywords_of, type_of, filter_with,
}
use zte_u60_pro_mu5250_manag.Forward.Saved.{RuleBody, body_of_draft}

-- A text that stands in a list of the form: trimmed, not empty, without a comma.
abbrev pub IsItem : Text → Type 0
IsItem p = (trim p ≡ p) × (not_empty p ≡ true) × All (λ c. (c == 44) ≡ false) p

abbrev spaced : List Text → List Text
spaced [] = []
spaced (p ∷ ps) = (32 ∷ p) ∷ spaced ps

split-spaced :
    (p : Text) (ps : List Text)
    → All IsItem (p ∷ ps)
    → split 44 (32 ∷ join (codes ", ") (p ∷ ps)) ≡ spaced (p ∷ ps)
unfolding join
split-spaced p [] ((t, n, c), hs) = split-last 44 (32 ∷ p) (refl, c)
split-spaced p (q ∷ ps) ((t, n, c), hs) =
    split-part 44 (32 ∷ p) (32 ∷ join (codes ", ") (q ∷ ps)) (refl, c)
    ∙ ap (λ rest. (32 ∷ p) ∷ rest) (split-spaced q ps hs)

tidy-spaced : (ps : List Text) → All IsItem ps → filter not_empty (map trim (spaced ps)) ≡ ps
tidy-spaced [] h = refl
tidy-spaced (p ∷ ps) ((t, n, c), hs) =
    rw (trim-space p, t, n) (ap (λ rest. p ∷ rest) (tidy-spaced ps hs))

-- A list of the form is read back from the text that shows it.
pub split_list-join : (ps : List Text) → All IsItem ps → split_list (join (codes ", ") ps) ≡ ps
unfolding split_list join
split_list-join [] h = refl
split_list-join (p ∷ []) ((t, n, c), hs) = rw (split-last 44 p c, t, n) refl
split_list-join (p ∷ q ∷ ps) ((t, n, c), hs) =
    rw (split-part 44 p (32 ∷ join (codes ", ") (q ∷ ps)) c, split-spaced q ps hs, t, n)
      (ap (λ rest. p ∷ rest) (tidy-spaced (q ∷ ps) hs))

-- The body of a rule as the device holds it.
abbrev pub body_of_rule : ForwardRule → RuleBody
body_of_rule r = record {
  name = r.name;
  enabled = r.enabled;
  sms_filter = r.sms_filter;
  destination = r.destination;
}

abbrev pub IsTidyFilter : SmsFilter → Type 0
IsTidyFilter f = All IsItem (patterns_of f) × All IsItem (keywords_of f)

filter_of-draft_of :
    (r : ForwardRule) → IsTidyFilter r.sms_filter → filter_of (draft_of r) ≡ r.sms_filter
unfolding filter_of draft_of
filter_of-draft_of r h = lists r.sms_filter h
  where
    lists :
        (f : SmsFilter)
        → IsTidyFilter f
        → filter_with
            (type_of f)
            (split_list (join (codes ", ") (patterns_of f)))
            (split_list (join (codes ", ") (keywords_of f)))
          ≡ f
    lists SmsFilter.all_messages (h, k) = refl
    lists (SmsFilter.sender ps) (h, k) = ap SmsFilter.sender (split_list-join ps h)
    lists (SmsFilter.content ks) (h, k) = ap SmsFilter.content (split_list-join ks k)
    lists (SmsFilter.sender_and_content ps ks) (h, k) =
        rw (split_list-join ps h, split_list-join ks k) refl

-- A rule that is opened for editing and saved as it is shown is sent unchanged, when its name and its
-- destination are trimmed and the texts of its filter are trimmed, not empty and without a comma.
pub body_of_draft-draft_of :
    (r : ForwardRule)
    → trim r.name ≡ r.name
    → IsTidyFilter r.sms_filter
    → dest_of r.destination ≡ r.destination
    → body_of_draft (draft_of r) ≡ body_of_rule r
unfolding body_of_draft draft_of
body_of_draft-draft_of r n f d = rw (n, filter_of-draft_of r f, d) refl
