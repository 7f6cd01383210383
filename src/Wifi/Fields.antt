-- ===== src/Wifi/Fields.antt =====
-- What both Wi-Fi pages check of a network name and of a password
-- (web/src/app/(panel)/router/wifi/fields.tsx). A text is the list of its UTF-16 units.
use zte_u60_pro_mu5250_manag.Common.{
  ℕ, ◌+◌, Bool, ◌&&◌, ◌||◌, not, Option, none, some, [], ◌∷◌, any, all, length, if◌then◌else◌, ltb,
  leb, ◌==◌,
}
use zte_u60_pro_mu5250_manag.Common.Texts.{Text, codes, text_eq}
use zte_u60_pro_mu5250_manag.Common.Hex.{is_hex}

-- `STRIPPED_CHARS`: ' " ; $ ` \ | < > &
unfoldable pub is_stripped : ℕ → Bool
is_stripped c =
    (c == 39)
    || (c == 34)
    || (c == 59)
    || (c == 36)
    || (c == 96)
    || (c == 92)
    || (c == 124)
    || (c == 60)
    || (c == 62)
    || (c == 38)

unfoldable pub has_stripped : Text → Bool
unfolding is_stripped
has_stripped s = any is_stripped s

abbrev pub is_high : ℕ → Bool
is_high c = leb 0xd800 c && leb c 0xdbff

abbrev pub is_low : ℕ → Bool
is_low c = leb 0xdc00 c && leb c 0xdfff

abbrev pub unit_bytes : ℕ → ℕ
unit_bytes c = if ltb c 0x80 then 1 else if ltb c 0x800 then 2 else 3

-- The length of the UTF-8 bytes of a text: a pair of surrogates has four, one alone is sent as three.
unfoldable pub byte_length : Text → ℕ
byte_length [] = 0
byte_length (c ∷ []) = unit_bytes c
byte_length (c ∷ d ∷ s) =
    let rest = byte_length s in
    let next = byte_length (d ∷ s) in
    if is_high c && is_low d then 4 + rest else unit_bytes c + next

pub data SsidProblem : Type 0 where
  empty long : SsidProblem

-- `ssidProblem`.
unfoldable pub ssid_problem : Text → Option SsidProblem
unfolding byte_length
ssid_problem s =
    if length s == 0
    then some SsidProblem.empty
    else if ltb 32 (byte_length s)
    then some SsidProblem.long
    else none

pub data KeyProblem : Type 0 where
  short too_long not_ascii : KeyProblem

abbrev pub open_network : Text
open_network = codes "none"

unfoldable pub is_hex_key : Text → Bool
unfolding is_hex
is_hex_key k = (length k == 64) && all is_hex k

unfoldable pub is_printable : Text → Bool
is_printable k = all (λ c. leb 0x20 c && leb c 0x7e) k

-- `keyProblem`.
unfoldable pub key_problem : Text → Text → Option KeyProblem
unfolding text_eq is_hex_key is_printable
key_problem k encryption =
    if text_eq encryption open_network
    then none
    else if is_hex_key k
    then none
    else if not (is_printable k)
    then some KeyProblem.not_ascii
    else if ltb (length k) 8
    then some KeyProblem.short
    else if ltb 63 (length k)
    then some KeyProblem.too_long
    else none

-- `flag`.
unfoldable pub flag : Option Text → Text
unfolding text_eq
flag none = codes "0"
flag (some v) = if text_eq v (codes "1") then codes "1" else codes "0"
