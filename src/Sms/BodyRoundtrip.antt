-- ===== src/Sms/BodyRoundtrip.antt =====
-- What is sent is what is read (web/src/lib/sms.ts and the compose page).
use zte_u60_pro_mu5250_manag.Common.{
  ltb, ℕ, zero, suc, ◌+◌, ◌-◌, ◌*◌, ◌/◌, ◌%◌, ◌≤◌, ◌<◌, ◌≡◌, ◌≢◌, ◌∙◌, refl, sym, ap, inl, inr,
  Bool, true, false, not, [], ◌∷◌, if◌then◌else◌, ◌==◌, length, all, All, Bool-cases, arith,
}
use mathlib.Core.Path.{subst}
use zte_u60_pro_mu5250_manag.Common.Hex.{is_hex, hex_digit_lem}
use zte_u60_pro_mu5250_manag.Common.Texts.{
  Text, is_space, trim, trim-All, strip_end, LastNot, strip_end-LastNot,
}
use zte_u60_pro_mu5250_manag.Sms.Body.{
  to_ucs2_hex, needs_ucs2, parts_of, units_of, is_nul, is_ucs2_hex, decode_text, clean_number,
  is_number, Asked, SmsSendRequest, ComposeError, ask_send, request_for, Encoding,
}

-- The units of a text.
abbrev pub IsUtf16 : Text → Type 0
IsUtf16 s = All (λ c. c < 65536) s

units_of-to_ucs2_hex : (s : Text) → IsUtf16 s → units_of (to_ucs2_hex s) ≡ s
unfolding units_of to_ucs2_hex
units_of-to_ucs2_hex [] h = refl
units_of-to_ucs2_hex (c ∷ s) (h, hs) = ground (
  arith,
  hex_digit_lem (c / 4096) (omega arith),
  hex_digit_lem (c / 256 % 16) (omega arith),
  hex_digit_lem (c / 16 % 16) (omega arith),
  hex_digit_lem (c % 16) (omega arith),
  units_of-to_ucs2_hex s hs,
)

hex_text :
    (s : Text)
    → IsUtf16 s
    → (all is_hex (to_ucs2_hex s) ≡ true)
      × All (λ c. is_space c ≡ false) (to_ucs2_hex s)
      × (length (to_ucs2_hex s) ≡ 4 * length s)
unfolding to_ucs2_hex
hex_text [] h = (refl, tt, omega arith)
hex_text (c ∷ s) (h, hs) =
    let (e, n, l) = hex_text s hs in
    let (_, x0, y0) = hex_digit_lem (c / 4096) (omega arith) in
    let (_, x1, y1) = hex_digit_lem (c / 256 % 16) (omega arith) in
    let (_, x2, y2) = hex_digit_lem (c / 16 % 16) (omega arith) in
    let (_, x3, y3) = hex_digit_lem (c % 16) (omega arith) in
    (ground arith, (y0, (y1, (y2, (y3, n)))), omega (arith, l))

decode_text_of_hex :
    (hex : Text)
    → trim hex ≡ hex
    → is_ucs2_hex hex ≡ true
    → decode_text hex ≡ strip_end is_nul (units_of hex)
unfolding decode_text
decode_text_of_hex hex t e = ground arith

is_ucs2_hex-to_ucs2_hex : (s : Text) → IsUtf16 s → s ≢ [] → is_ucs2_hex (to_ucs2_hex s) ≡ true
unfolding is_ucs2_hex
is_ucs2_hex-to_ucs2_hex [] h n = absurd (n refl)
is_ucs2_hex-to_ucs2_hex (c ∷ s) h n =
    let (e, _, size) = hex_text (c ∷ s) h in
    let four : 4 ≤ length (to_ucs2_hex (c ∷ s)) = omega (arith, size) in
    let whole : length (to_ucs2_hex (c ∷ s)) % 4 ≡ 0 = omega (arith, size) in
    is_ucs2_hex_of (to_ucs2_hex (c ∷ s)) four whole e
  where
    is_ucs2_hex_of :
        (t : Text) → 4 ≤ length t → length t % 4 ≡ 0 → all is_hex t ≡ true → is_ucs2_hex t ≡ true
    is_ucs2_hex_of t a b e = ground arith

-- A text of UTF-16 units that is not empty and does not end in NUL is decoded from its UCS-2 form.
pub decode_text-to_ucs2_hex :
    (s : Text) → IsUtf16 s → s ≢ [] → LastNot is_nul s → decode_text (to_ucs2_hex s) ≡ s
decode_text-to_ucs2_hex s h n l =
    let (_, spaces, _) = hex_text s h in
    decode_text_of_hex (to_ucs2_hex s) (trim-All (to_ucs2_hex s) spaces)
      (is_ucs2_hex-to_ucs2_hex s h n)
    ∙ ap (strip_end is_nul) (units_of-to_ucs2_hex s h)
    ∙ strip_end-LastNot is_nul s l

-- The most units that a number of parts holds: one part holds 160 or 70, each of several 153 or 67.
abbrev pub capacity : Bool → ℕ → ℕ
capacity ucs2 zero = 0
capacity true (suc zero) = 70
capacity false (suc zero) = 160
capacity true (suc (suc n)) = 67 * (n + 2)
capacity false (suc (suc n)) = 153 * (n + 2)

capacity-parts_of :
    (ucs2 : Bool) (len parts : ℕ)
    → parts ≡ parts_of len ucs2
    → 0 < len
    → (len ≤ capacity ucs2 parts) × (capacity ucs2 (parts - 1) < len)
unfolding parts_of
capacity-parts_of true len zero e h = absurd (ground arith)
capacity-parts_of false len zero e h = absurd (ground arith)
capacity-parts_of true len (suc zero) e h = ground arith
capacity-parts_of false len (suc zero) e h = ground arith
capacity-parts_of true len (suc (suc zero)) e h = ground arith
capacity-parts_of false len (suc (suc zero)) e h = ground arith
capacity-parts_of true len (suc (suc (suc n))) e h = ground arith
capacity-parts_of false len (suc (suc (suc n))) e h = ground arith

-- The parts of a message that is not empty hold it, and one part less does not.
pub parts_of_lem :
    (ucs2 : Bool) (len : ℕ)
    → 0 < len
    → (len ≤ capacity ucs2 (parts_of len ucs2)) × (capacity ucs2 (parts_of len ucs2 - 1) < len)
parts_of_lem ucs2 len h = capacity-parts_of ucs2 len (parts_of len ucs2) refl h

-- The request carries the text: as it is and marked as GSM-7 when all its units are ASCII, else in
-- UCS-2 and marked so.
abbrev pub Carries : SmsSendRequest → Text → Type 0
Carries r text = elim r.encode_type [
  | Encoding.ucs2 ↦ (decode_text r.message_body ≡ text) × (¬ All (λ c. c < 128) text)
  | Encoding.gsm7 ↦ (r.message_body ≡ text) × All (λ c. c < 128) text
]

needs_ucs2_wide : (s : Text) → needs_ucs2 s ≡ true → ¬ All (λ c. c < 128) s
unfolding needs_ucs2
needs_ucs2_wide [] h a = absurd cc
needs_ucs2_wide (c ∷ s) h (a, more) = elim (Bool-cases (ltb 127 c)) [
  | inl e ↦ absurd (ground arith)
  | inr e ↦ needs_ucs2_wide s (ground arith) more
]

needs_ucs2_narrow : (s : Text) → needs_ucs2 s ≡ false → All (λ c. c < 128) s
unfolding needs_ucs2
needs_ucs2_narrow [] h = tt
needs_ucs2_narrow (c ∷ s) h = (ground arith, needs_ucs2_narrow s (ground arith))

abbrev asked_or : SmsSendRequest → Asked → SmsSendRequest
asked_or r (Asked.refused e) = r
asked_or r (Asked.asked q) = q

asked_of :
    (number text : Text) (q r : SmsSendRequest)
    → (if length number == 0
        then Asked.refused ComposeError.enter_phone
        else if not (is_number number)
        then Asked.refused ComposeError.bad_number
        else if length text == 0
        then Asked.refused ComposeError.empty_message
        else Asked.asked q)
      ≡ Asked.asked r
    → (q ≡ r) × (is_number number ≡ true) × ((length text == 0) ≡ false)
asked_of number text q r h = ground arith

Carries_request_for :
    (number now text : Text)
    → (length text == 0) ≡ false
    → IsUtf16 text
    → LastNot is_nul text
    → Carries (request_for number now text) text
Carries_request_for number now [] e u l = absurd (ground arith)
Carries_request_for number now (c ∷ s) e u l = elim (Bool-cases (needs_ucs2 (c ∷ s))) [
  | inl wide ↦ rw wide (decode_text-to_ucs2_hex (c ∷ s) u (λ x. cc) l, needs_ucs2_wide (c ∷ s) wide)
  | inr short ↦ rw short (refl, needs_ucs2_narrow (c ∷ s) short)
]

-- The page sends the trimmed text that was typed, when that is UTF-16 and does not end in NUL: a
-- text of ASCII units as it is, marked as GSM-7; any other marked as UCS-2, in a form that
-- `decodeSms` reads as the text. The number is the typed one without its spaces and marks, and is
-- valid.
pub ask_send_sound :
    (to body now : Text) (r : SmsSendRequest)
    → ask_send to body now ≡ Asked.asked r
    → IsUtf16 (trim body)
    → LastNot is_nul (trim body)
    → Carries r (trim body) × (is_number r.number ≡ true) × (r.number ≡ clean_number to)
unfolding ask_send
ask_send_sound to body now r h u l =
    let (e, valid, full) =
      asked_of (clean_number to) (trim body) (request_for (clean_number to) now (trim body)) r h in
    let number : clean_number to ≡ r.number = ap (λ q. q.number) e in
    (
      subst (λ q. Carries q (trim body)) e
          (Carries_request_for (clean_number to) now (trim body) full u l),
      sym (ap is_number number) ∙ valid,
      sym number,
    )
