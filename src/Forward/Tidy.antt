-- ===== src/Forward/Tidy.antt =====
-- What a draft of a forwarding rule is tidied to (web/src/app/(panel)/sms/forward/page.tsx).
use zte_u60_pro_mu5250_manag.Common.{
  ℕ, ◌≡◌, refl, ◌↔◌, Bool, true, false, Option, none, some, List, [], ◌∷◌, map, filter, ◌==◌, All,
  Bool-cases, inl, inr, arith,
}
use zte_u60_pro_mu5250_manag.Common.Texts.{
  Text, is_space, trim, trim-trim, split, push_unit, strip_start, strip_end, cons_end,
}
use zte_u60_pro_mu5250_manag.Forward.Rules.{
  SmsFilter, ForwardDestination, ForwardRule, FilterType, Draft, draft_of, filter_of, split_list,
  dest_of, draft_problem, not_empty, filter_with, missing, lists_problem, no_texts, first_problem,
  trimmed_token, token_of,
}
use zte_u60_pro_mu5250_manag.Forward.Saved.{RuleBody, body_of_draft}
use zte_u60_pro_mu5250_manag.Forward.Edited.{IsItem, IsTidyFilter, body_of_draft-draft_of}

abbrev NoComma : Text → Type 0
NoComma p = All (λ c. (c == 44) ≡ false) p

push_unit-All :
    (c : ℕ) (ps : List Text) → (c == 44) ≡ false → All NoComma ps → All NoComma (push_unit c ps)
push_unit-All c [] h hs = ((h, tt), tt)
push_unit-All c (p ∷ ps) h (k, hs) = ((h, k), hs)

split-All : (s : Text) → All NoComma (split 44 s)
unfolding split
split-All [] = (tt, tt)
split-All (c ∷ s) = elim (Bool-cases (c == 44)) [
  | inl e ↦ rw e (tt, split-All s)
  | inr e ↦ rw e (push_unit-All c (split 44 s) e (split-All s))
]

strip_start-NoComma : (p : ℕ → Bool) (s : Text) → NoComma s → NoComma (strip_start p s)
unfolding strip_start
strip_start-NoComma p [] h = tt
strip_start-NoComma p (c ∷ s) (h, hs) = elim (Bool-cases (p c)) [
  | inl e ↦ rw e (strip_start-NoComma p s hs)
  | inr e ↦ rw e (h, hs)
]

strip_end-NoComma : (p : ℕ → Bool) (s : Text) → NoComma s → NoComma (strip_end p s)
unfolding strip_end
strip_end-NoComma p [] h = tt
strip_end-NoComma p (c ∷ s) (h, hs) = ending c (strip_end p s) h (strip_end-NoComma p s hs)
  where
    ending : (c : ℕ) (t : Text) → (c == 44) ≡ false → NoComma t → NoComma (cons_end p c t)
    ending c [] h k = elim (Bool-cases (p c)) [ inl e ↦ rw e tt | inr e ↦ rw e (h, tt) ]
    ending c (d ∷ t) h k = (h, k)

trim-NoComma : (s : Text) → NoComma s → NoComma (trim s)
unfolding trim
trim-NoComma s h =
    strip_end-NoComma is_space (strip_start is_space s) (strip_start-NoComma is_space s h)

tidy-All : (ps : List Text) → All NoComma ps → All IsItem (filter not_empty (map trim ps))
tidy-All [] h = tt
tidy-All (p ∷ ps) (h, hs) = elim (Bool-cases (not_empty (trim p))) [
  | inl e ↦ rw e ((trim-trim p, e, trim-NoComma p h), tidy-All ps hs)
  | inr e ↦ rw e (tidy-All ps hs)
]

-- What a list is read to holds trimmed texts, not empty and without a comma.
pub split_list-All : (s : Text) → All IsItem (split_list s)
unfolding split_list
split_list-All s = tidy-All (split 44 s) (split-All s)

filter_of-IsTidyFilter : (d : Draft) → IsTidyFilter (filter_of d)
unfolding filter_of
filter_of-IsTidyFilter d =
    lists _ _ d.filter_type (split_list-All d.patterns) (split_list-All d.keywords)
  where
    lists :
        (ps ks : List Text) (t : FilterType)
        → All IsItem ps
        → All IsItem ks
        → IsTidyFilter (filter_with t ps ks)
    lists ps ks FilterType.of_all h k = (tt, tt)
    lists ps ks FilterType.of_sender h k = (h, tt)
    lists ps ks FilterType.of_content h k = (tt, k)
    lists ps ks FilterType.of_both h k = (h, k)

trimmed_token_twice : (t : Option Text) → trimmed_token (trimmed_token t) ≡ trimmed_token t
trimmed_token_twice none = refl
trimmed_token_twice (some s) = again (trim s) (trim-trim s)
  where
    again : (s : Text) → trim s ≡ s → trimmed_token (token_of s) ≡ token_of s
    again [] h = refl
    again (c ∷ s) h = rw h refl

dest_of_twice : (d : ForwardDestination) → dest_of (dest_of d) ≡ dest_of d
unfolding dest_of
dest_of_twice (ForwardDestination.telegram token chat silent) =
    rw (trim-trim token, trim-trim chat) refl
dest_of_twice (ForwardDestination.webhook url method headers) = rw (trim-trim url) refl
dest_of_twice (ForwardDestination.sms number) = rw (trim-trim number) refl
dest_of_twice (ForwardDestination.ntfy url topic token) =
    rw (trim-trim url, trim-trim topic, trimmed_token_twice token) refl
dest_of_twice (ForwardDestination.discord url) = rw (trim-trim url) refl
dest_of_twice (ForwardDestination.slack url) = rw (trim-trim url) refl

abbrev pub rule_with : ℕ → RuleBody → ForwardRule
rule_with id b = record {
  id = id;
  name = b.name;
  enabled = b.enabled;
  sms_filter = b.sms_filter;
  destination = b.destination;
}

-- A rule that was saved from any draft, opened for editing and saved again as it is shown is sent with
-- the same body.
pub body_of_draft-saved :
    (d : Draft) (id : ℕ)
    → body_of_draft (draft_of (rule_with id (body_of_draft d))) ≡ body_of_draft d
unfolding body_of_draft
body_of_draft-saved d id =
    body_of_draft-draft_of (rule_with id (body_of_draft d)) (trim-trim d.name)
      (filter_of-IsTidyFilter d) (dest_of_twice d.destination)

-- The lists that a filter needs have an entry.
abbrev pub HasEntries : SmsFilter → Type 0
HasEntries SmsFilter.all_messages = Unit {0}
HasEntries (SmsFilter.sender ps) = no_texts ps ≡ false
HasEntries (SmsFilter.content ks) = no_texts ks ≡ false
HasEntries (SmsFilter.sender_and_content ps ks) = (no_texts ps ≡ false) × (no_texts ks ≡ false)

lists_problem_iff : (f : SmsFilter) → (lists_problem f ≡ none) ↔ HasEntries f
lists_problem_iff SmsFilter.all_messages = (λ h. tt, λ h. refl)
lists_problem_iff (SmsFilter.sender ps) = ground arith
lists_problem_iff (SmsFilter.content ks) = ground arith
lists_problem_iff (SmsFilter.sender_and_content ps ks) = ground arith

-- A body that can be sent: it has a name, its filter has the entries that it needs, and the fields of
-- its destination are filled in.
abbrev pub IsSendable : RuleBody → Type 0
IsSendable b = (not_empty b.name ≡ true) × HasEntries b.sms_filter × (missing b.destination ≡ false)

first_problem_iff :
    (name lacks : Bool) (f : SmsFilter)
    → (first_problem name (lists_problem f) lacks ≡ none)
      ↔ ((name ≡ true) × HasEntries f × (lacks ≡ false))
first_problem_iff name lacks f = (to name lacks, from name lacks)
  where
    to :
        (name lacks : Bool)
        → first_problem name (lists_problem f) lacks ≡ none
        → (name ≡ true) × HasEntries f × (lacks ≡ false)
    to false lacks h = absurd cc
    to true lacks h =
        let no_list : lists_problem f ≡ none = ground arith in
        (refl, (lists_problem_iff f).0 no_list, ground arith)

    from :
        (name lacks : Bool)
        → (name ≡ true) × HasEntries f × (lacks ≡ false)
        → first_problem name (lists_problem f) lacks ≡ none
    from name lacks (n, e, l) = rw (n, (lists_problem_iff f).1 e, l) refl

-- The page finds no problem in a draft exactly where the body that it makes of it can be sent.
pub draft_problem_iff : (d : Draft) → (draft_problem d ≡ none) ↔ IsSendable (body_of_draft d)
unfolding draft_problem body_of_draft
draft_problem_iff d =
    first_problem_iff (not_empty (trim d.name)) (missing (dest_of d.destination)) (filter_of d)
