-- ===== src/Forward/Checks.antt =====
-- What the checks of the forwarding page tell of the rules that are read back
-- (web/src/app/(panel)/sms/forward/page.tsx).
use zte_u60_pro_mu5250_manag.Common.{
  ◌+◌, ◌≡◌, refl, ap, ◌↔◌, Bool, true, ◌&&◌, List, [], ◌∷◌, ◌++◌, filter, length, arith, ==_iff,
  bool_eq_refl, bool_eq_sound,
}
use zte_u60_pro_mu5250_manag.Common.Texts.{Text, text_eq_refl, text_eq_sound}
use zte_u60_pro_mu5250_manag.Forward.Rules.{SmsFilter, ForwardRule}
use zte_u60_pro_mu5250_manag.Forward.Saved.{
  RuleBody, same_texts, same_filter, dest_type, matches, check_create,
}

same_texts_refl : (ts : List Text) → same_texts ts ts ≡ true
unfolding same_texts
same_texts_refl [] = refl
same_texts_refl (t ∷ ts) = rw (text_eq_refl t, same_texts_refl ts) refl

same_texts_sound : (ss ts : List Text) → same_texts ss ts ≡ true → ss ≡ ts
unfolding same_texts
same_texts_sound [] [] h = refl
same_texts_sound [] (t ∷ ts) h = absurd cc
same_texts_sound (s ∷ ss) [] h = absurd cc
same_texts_sound (s ∷ ss) (t ∷ ts) h = ground (arith, text_eq_sound s t, same_texts_sound ss ts)

same_filter_refl : (f : SmsFilter) → same_filter f f ≡ true
unfolding same_filter
same_filter_refl SmsFilter.all_messages = refl
same_filter_refl (SmsFilter.sender ps) = same_texts_refl ps
same_filter_refl (SmsFilter.content ks) = same_texts_refl ks
same_filter_refl (SmsFilter.sender_and_content ps ks) =
    rw (same_texts_refl ps, same_texts_refl ks) refl

same_filter_sound : (f g : SmsFilter) → same_filter f g ≡ true → f ≡ g
unfolding same_filter
same_filter_sound SmsFilter.all_messages SmsFilter.all_messages h = refl
same_filter_sound (SmsFilter.sender ps) (SmsFilter.sender qs) h =
    ap SmsFilter.sender (same_texts_sound ps qs h)
same_filter_sound (SmsFilter.content ks) (SmsFilter.content ls) h =
    ap SmsFilter.content (same_texts_sound ks ls h)
same_filter_sound (SmsFilter.sender_and_content ps ks) (SmsFilter.sender_and_content qs ls) h =
    ground (arith, same_texts_sound ps qs, same_texts_sound ks ls)
same_filter_sound f g h = absurd cc

all_four :
    (a b c d : Bool) → (a && b && c && d) ≡ true → (a ≡ true) × (b ≡ true) × (c ≡ true) × (d ≡ true)
all_four a b c d h = ground arith

-- A rule matches a body exactly where it has the body's name, switch and filter, and a destination of
-- the same type.
pub matches_iff :
    (b : RuleBody) (r : ForwardRule)
    → (matches b r ≡ true) ↔ (
        (r.name ≡ b.name)
        × (r.enabled ≡ b.enabled)
        × (r.sms_filter ≡ b.sms_filter)
        × (dest_type r.destination ≡ dest_type b.destination))
unfolding matches
matches_iff b r = (to, from)
  where
    to :
        matches b r ≡ true
        → (r.name ≡ b.name)
          × (r.enabled ≡ b.enabled)
          × (r.sms_filter ≡ b.sms_filter)
          × (dest_type r.destination ≡ dest_type b.destination)
    to h =
        let (n, e, f, d) = all_four _ _ _ _ h in
        (
          text_eq_sound r.name b.name n,
          bool_eq_sound r.enabled b.enabled e,
          same_filter_sound r.sms_filter b.sms_filter f,
          (==_iff _ _).0 d,
        )

    from :
        (r.name ≡ b.name)
          × (r.enabled ≡ b.enabled)
          × (r.sms_filter ≡ b.sms_filter)
          × (dest_type r.destination ≡ dest_type b.destination)
        → matches b r ≡ true
    from (n, e, f, d) =
        rw
          (
            n,
            e,
            f,
            d,
            text_eq_refl b.name,
            bool_eq_refl b.enabled,
            same_filter_refl b.sms_filter,
            (==_iff (dest_type b.destination) (dest_type b.destination)).1 refl,
          )
          refl

filter-insert :
    (p : ForwardRule → Bool) (xs ys : List ForwardRule) (r : ForwardRule)
    → length (filter p (xs ++ (r ∷ ys))) ≡ length (filter p (r ∷ [])) + length (filter p (xs ++ ys))
filter-insert p [] ys r = ground arith
filter-insert p (x ∷ xs) ys r = ground (arith, filter-insert p xs ys r)

-- Against the rules before, the check of a new rule accepts a list with one more rule exactly where
-- that rule matches the body that was sent, wherever it stands, and whatever rules there were.
pub check_create-insert :
    (b : RuleBody) (xs ys : List ForwardRule) (r : ForwardRule)
    → check_create b (xs ++ ys) (xs ++ (r ∷ ys)) ≡ matches b r
unfolding check_create
check_create-insert b xs ys r = ground (arith, filter-insert (matches b) xs ys r)
