-- ===== src/Scheduler/Tiers.antt =====
-- Which jobs need the dialog of a tier-3 write (web/src/app/(panel)/scheduler/jobs.ts).
use mathlib.Core.Path.{subst}
use zte_u60_pro_mu5250_manag.Common.{
  ℕ, ◌≡◌, ◌∙◌, refl, ap, Bool, true, false, ◌&&◌, not, some, List, [], ◌∷◌, ◌++◌, if◌then◌else◌,
  ◌==◌, any, all, All, get_elem?, length, leb, zero, suc, arith,
}
use zte_u60_pro_mu5250_manag.Common.Texts.{
  Text, codes, is_space, trim, strip_start, strip_end, cons_end,
}
use zte_u60_pro_mu5250_manag.Scheduler.Jobs.{
  is_method, starts_with, before_query, tier3_prefixes, is_tier3,
}

-- A unit of a plain path: no space and no question mark.
abbrev IsPlain : ℕ → Type 0
IsPlain c = (is_space c ≡ false) × ((c == 63) ≡ false)

strip_end-plain :
    (pre rest : Text)
    → All IsPlain pre
    → strip_end is_space (pre ++ rest) ≡ pre ++ strip_end is_space rest
unfolding strip_end
strip_end-plain [] rest h = refl
strip_end-plain (c ∷ pre) rest ((s, q), hs) =
    ap (cons_end is_space c) (strip_end-plain pre rest hs)
    ∙ kept c (pre ++ strip_end is_space rest) s
  where
    kept : (c : ℕ) (t : Text) → is_space c ≡ false → cons_end is_space c t ≡ c ∷ t
    kept c [] h = rw h refl
    kept c (d ∷ t) h = refl

trim-plain :
    (c : ℕ) (pre rest : Text)
    → IsPlain c
    → All IsPlain pre
    → trim (c ∷ (pre ++ rest)) ≡ c ∷ (pre ++ strip_end is_space rest)
unfolding trim strip_start
trim-plain c pre rest (s, q) h = rw s (strip_end-plain (c ∷ pre) rest ((s, q), h))

before_query-plain :
    (pre rest : Text) → All IsPlain pre → before_query (pre ++ rest) ≡ pre ++ before_query rest
unfolding before_query
before_query-plain [] rest h = refl
before_query-plain (c ∷ pre) rest ((s, q), hs) = rw (q, before_query-plain pre rest hs) refl

starts_with-append : (pre rest : Text) → starts_with pre (pre ++ rest) ≡ true
unfolding starts_with
starts_with-append [] rest = refl
starts_with-append (c ∷ pre) rest = ground (arith, starts_with-append pre rest)

any-elem :
    (p : Text → Bool) (ps : List Text) (i : ℕ) (x : Text)
    → get_elem? ps i ≡ some x
    → p x ≡ true
    → any p ps ≡ true
any-elem p [] i x h e = absurd cc
any-elem p (y ∷ ps) zero x h e = let same : y ≡ x = ground arith in rw (same, e) refl
any-elem p (y ∷ ps) (suc i) x h e = ground (arith, any-elem p ps i x h e)

all-elem :
    (p : Text → Bool) (ps : List Text) (i : ℕ) (x : Text)
    → get_elem? ps i ≡ some x
    → all p ps ≡ true
    → p x ≡ true
all-elem p [] i x h e = absurd cc
all-elem p (y ∷ ps) zero x h e =
    let same : y ≡ x = ground arith in
    let first : p y ≡ true = ground arith in subst (λ z. p z ≡ true) same first
all-elem p (y ∷ ps) (suc i) x h e =
    let rest : all p ps ≡ true = ground arith in all-elem p ps i x h rest

abbrev plain_text : Text → Bool
plain_text s = all (λ c. not (is_space c) && not (c == 63)) s

IsPlain-plain_text : (s : Text) → plain_text s ≡ true → All IsPlain s
IsPlain-plain_text [] h = tt
IsPlain-plain_text (c ∷ s) h =
    let space : is_space c ≡ false = ground arith in
    let query : (c == 63) ≡ false = ground arith in
    let rest : plain_text s ≡ true = ground arith in ((space, query), IsPlain-plain_text s rest)

-- Each prefix is a plain text that is not empty.
prefixes_plain : all (λ s. plain_text s && leb 1 (length s)) tier3_prefixes ≡ true
unfolding is_space
prefixes_plain = refl

query_kept :
    (pre rest : Text)
    → plain_text pre ≡ true
    → leb 1 (length pre) ≡ true
    → starts_with pre (before_query (trim (pre ++ rest))) ≡ true
query_kept [] rest h n = absurd (ground arith)
query_kept (c ∷ pre) rest h n =
    let (first, others) = IsPlain-plain_text (c ∷ pre) h in
    rw
      (
        trim-plain c pre rest first others,
        before_query-plain (c ∷ pre) (strip_end is_space rest) (first, others),
      )
      (starts_with-append (c ∷ pre) (before_query (strip_end is_space rest)))

tier_of :
    (get deletes under : Bool)
    → get ≡ false
    → under ≡ true
    → (if get then false else if deletes then true else under) ≡ true
tier_of get deletes under g u = ground arith

-- A request that is no GET needs the dialog of tier 3 where its path begins with one of the prefixes,
-- whatever comes behind it: more of the path, a query, or spaces.
pub is_tier3-prefix :
    (method pre rest : Text) (i : ℕ)
    → get_elem? tier3_prefixes i ≡ some pre
    → is_method (codes "GET") method ≡ false
    → is_tier3 method (pre ++ rest) ≡ true
unfolding is_tier3
is_tier3-prefix method pre rest i h m =
    let plain =
      all-elem (λ s. plain_text s && leb 1 (length s)) tier3_prefixes i pre h prefixes_plain in
    let kept = query_kept pre rest (both plain).0 (both plain).1 in
    let found =
      any-elem (λ x. starts_with x (before_query (trim (pre ++ rest)))) tier3_prefixes i pre h
        kept in
    tier_of (is_method (codes "GET") method) _ _ m found
  where
    both : {a b : Bool} → (a && b) ≡ true → (a ≡ true) × (b ≡ true)
    both e = ground arith
