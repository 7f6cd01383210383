-- ===== src/Sms/Body.antt =====
-- The body of a message (web/src/lib/sms.ts and web/src/app/(panel)/sms/compose/page.tsx).
use zte_u60_pro_mu5250_manag.Common.{
  ℕ, ◌+◌, ◌*◌, ◌/◌, ◌%◌, Bool, false, ◌&&◌, ◌||◌, not, Option, none, some, List, [], ◌∷◌, ◌++◌,
  if◌then◌else◌, ltb, leb, ◌==◌, length, any, all, filter,
}
use zte_u60_pro_mu5250_manag.Common.Hex.{hex_digit, is_hex, hex_value}
use zte_u60_pro_mu5250_manag.Common.Texts.{
  Text, codes, is_space, trim, strip_end, split, is_digits, number, decimal, pad_two,
}

-- `toUCS2Hex`: four digits for each unit.
unfoldable pub to_ucs2_hex : Text → Text
unfolding hex_digit
to_ucs2_hex [] = []
to_ucs2_hex (c ∷ s) =
    hex_digit (c / 4096)
    ∷ hex_digit (c / 256 % 16)
    ∷ hex_digit (c / 16 % 16)
    ∷ hex_digit (c % 16)
    ∷ to_ucs2_hex s

-- `needsUCS2`.
unfoldable pub needs_ucs2 : Text → Bool
needs_ucs2 s = any (λ c. ltb 127 c) s

-- `partsOf`; `Math.ceil(len / multi)` is `(len + multi - 1) / multi`.
unfoldable pub parts_of : ℕ → Bool → ℕ
parts_of len ucs2 =
    let single = if ucs2 then 70 else 160 in
    let parts = if ucs2 then (len + 66) / 67 else (len + 152) / 153 in
    if len == 0 then 0 else if leb len single then 1 else parts

-- The units of a text of hexadecimal digits, four for each.
unfoldable pub units_of : Text → Text
unfolding hex_value
units_of (a ∷ b ∷ c ∷ d ∷ s) =
    (4096 * hex_value a + 256 * hex_value b + 16 * hex_value c + hex_value d) ∷ units_of s
units_of s = []

abbrev pub is_nul : ℕ → Bool
is_nul c = c == 0

unfoldable pub is_ucs2_hex : Text → Bool
unfolding is_hex
is_ucs2_hex s = leb 4 (length s) && (length s % 4 == 0 && all is_hex s)

-- `decodeSms`.
unfoldable pub decode_text : Text → Text
unfolding trim is_ucs2_hex units_of strip_end
decode_text content =
    if is_ucs2_hex (trim content) then strip_end is_nul (units_of (trim content)) else content

unfoldable pub decode_sms : Option Text → Text
unfolding decode_text
decode_sms none = []
decode_sms (some []) = []
decode_sms (some (c ∷ s)) = decode_text (c ∷ s)

-- `cleanNumber` and `isNumber`.
unfoldable pub clean_number : Text → Text
unfolding is_space
clean_number s = filter (λ c. not (is_space c || c == 45 || c == 40 || c == 41)) s

unfoldable pub is_number : Text → Bool
unfolding is_digits
is_number [] = false
is_number (c ∷ s) = if c == 43 then is_digits 3 20 s else is_digits 3 20 (c ∷ s)

pub data Encoding : Type 0 where
  ucs2 gsm7 : Encoding

pub record SmsSendRequest : Type 0 where
  pub number : Text
  pub sms_time : Text
  pub message_body : Text
  pub id : Text
  pub encode_type : Encoding

pub data ComposeError : Type 0 where
  enter_phone bad_number empty_message : ComposeError

pub data Asked : Type 0 where
  refused : ComposeError → Asked
  asked : SmsSendRequest → Asked

abbrev pub request_for : Text → Text → Text → SmsSendRequest
request_for number now text =
    let wide = needs_ucs2 text in
    record {
      number = number;
      sms_time = now;
      message_body = if wide then to_ucs2_hex text else text;
      id = codes "-1";
      encode_type = if wide then Encoding.ucs2 else Encoding.gsm7;
    }

-- `ask` of the compose page, while no operation is busy; `now` is `getSMSTime()`.
unfoldable pub ask_send : Text → Text → Text → Asked
unfolding clean_number is_number trim needs_ucs2 to_ucs2_hex
ask_send to body now =
    let number = clean_number to in
    let text = trim body in
    if length number == 0
    then Asked.refused ComposeError.enter_phone
    else if not (is_number number)
    then Asked.refused ComposeError.bad_number
    else if length text == 0
    then Asked.refused ComposeError.empty_message
    else Asked.asked (request_for number now text)

-- `formatSmsDate` of "YY,MM,DD,HH,MM,…"; a text of another form is shown as it is.
abbrev pub date_of : Text → Text → Text → Text → Text → Text
date_of yy mm dd hh mi =
    decimal (number yy + 2000)
    ++ (45 ∷ pad_two mm)
    ++ (45 ∷ pad_two dd)
    ++ (32 ∷ pad_two hh)
    ++ (58 ∷ pad_two mi)

abbrev pub date_of_parts : Text → List Text → Text
date_of_parts date (yy ∷ mm ∷ dd ∷ hh ∷ mi ∷ ss ∷ rest) =
    if all (is_digits 1 2) (yy ∷ mm ∷ dd ∷ hh ∷ mi ∷ []) then date_of yy mm dd hh mi else date
date_of_parts date parts = date

unfoldable pub format_sms_date : Option Text → Text
unfolding split is_digits number decimal pad_two
format_sms_date none = []
format_sms_date (some date) = date_of_parts date (split 44 date)
