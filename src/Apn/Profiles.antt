-- ===== src/Apn/Profiles.antt =====
-- Profiles as the device lists them, and as the page shows and edits them
-- (web/src/app/(panel)/router/apn/page.tsx).
use zte_u60_pro_mu5250_manag.Common.{
  ℕ, Bool, true, false, ◌&&◌, ◌||◌, not, Option, none, some, List, [], ◌∷◌, map, if◌then◌else◌,
  ◌==◌, leb, length, any, all, filter, get_or_else,
}
use zte_u60_pro_mu5250_manag.Common.Texts.{Text, codes, text_eq, is_digit, number, decimal}
use zte_u60_pro_mu5250_manag.Net.Remote.{lower_unit}

-- A field of an answer, of any of the types that the page tells apart.
pub data Value : Type 0 where
  num : ℕ → Value
  txt : Text → Value
  flag : Bool → Value
  absent : Value

pub record RouterApnProfile : Type 0 where
  pub cid : Option ℕ
  pub profile_id : Value
  pub profilename : Option Text
  pub wanapn : Option Text
  pub username : Option Text
  pub password : Option Text
  pub pdp_type : Value
  pub roaming_pdp_type : Value
  pub ppp_auth_mode : Value
  pub is_enable : Value

pub record Apn : Type 0 where
  pub id : Text
  pub name : Text
  pub apn : Text
  pub username : Text
  pub password : Text
  pub pdp : Text
  pub auth : Text
  pub roaming_raw : Value
  pub active : Bool

-- `PDP_TYPES`, `AUTH_MODES`, `PDP_BY_NUM` and `AUTH_BY_NUM`.
abbrev pub pdp_types : List Text
pdp_types = codes "IPv4" ∷ codes "IPv6" ∷ codes "IPv4v6" ∷ []

abbrev pub auth_modes : List Text
auth_modes = codes "none" ∷ codes "PAP" ∷ codes "CHAP" ∷ []

abbrev pub pdp_by_num : ℕ → Option Text
pdp_by_num n =
    if n == 1
    then some (codes "IPv4")
    else if n == 2
    then some (codes "IPv6")
    else if n == 3
    then some (codes "IPv4v6")
    else none

abbrev pub auth_by_num : ℕ → Option Text
auth_by_num n =
    if n == 0
    then some (codes "none")
    else if n == 1
    then some (codes "PAP")
    else if n == 2
    then some (codes "CHAP")
    else none

-- `PDP_NUM[…] ?? 1` and `AUTH_NUM[…] ?? 0`.
unfoldable pub pdp_num : Text → ℕ
unfolding text_eq
pdp_num s =
    if text_eq s (codes "IPv4")
    then 1
    else if text_eq s (codes "IPv6")
    then 2
    else if text_eq s (codes "IPv4v6")
    then 3
    else 1

unfoldable pub auth_num : Text → ℕ
unfolding text_eq
auth_num s =
    if text_eq s (codes "none")
    then 0
    else if text_eq s (codes "PAP")
    then 1
    else if text_eq s (codes "CHAP")
    then 2
    else 0

abbrev pub one_of : List Text → Text → Bool
one_of list s = any (λ x. text_eq s x) list

-- `asBool`.
unfoldable pub as_bool : Value → Bool
unfolding text_eq
as_bool (Value.flag b) = b
as_bool (Value.num n) = not (n == 0)
as_bool (Value.txt s) = one_of (codes "1" ∷ codes "true" ∷ codes "on" ∷ []) (map lower_unit s)
as_bool Value.absent = false

-- `/^\d+$/`.
abbrev pub is_number_text : Text → Bool
is_number_text s = leb 1 (length s) && all is_digit s

-- `label`.
unfoldable pub label : Value → (ℕ → Option Text) → Text
unfolding decimal number is_digit
label (Value.num n) by_num = get_or_else (by_num n) (decimal n)
label (Value.txt s) by_num = if is_number_text s then get_or_else (by_num (number s)) s else s
label (Value.flag b) by_num = []
label Value.absent by_num = []

abbrev pub cid_text : Option ℕ → Text
cid_text none = []
cid_text (some n) = decimal n

abbrev pub id_text : Value → Option ℕ → Text
id_text (Value.txt (c ∷ s)) cid = c ∷ s
id_text v cid = cid_text cid

abbrev pub not_blank : Text → Bool
not_blank [] = false
not_blank (c ∷ s) = true

-- A profile as `normalize` shows it.
unfoldable pub shown : RouterApnProfile → Apn
unfolding label as_bool decimal
shown p = record {
  id = id_text p.profile_id p.cid;
  name = get_or_else p.profilename [];
  apn = get_or_else p.wanapn [];
  username = get_or_else p.username [];
  password = get_or_else p.password [];
  pdp = label p.pdp_type pdp_by_num;
  auth = label p.ppp_auth_mode auth_by_num;
  roaming_raw = p.roaming_pdp_type;
  active = as_bool p.is_enable;
}

-- `normalize`.
unfoldable pub normalize : Option (List RouterApnProfile) → List Apn
unfolding shown
normalize list = filter (λ p. not_blank p.name || not_blank p.apn) (map shown (get_or_else list []))

abbrev pub is_num : Value → Bool
is_num (Value.num n) = true
is_num v = false

-- `listIsNumeric` of the two lists of the page.
unfoldable pub list_is_numeric :
    Option (List RouterApnProfile) → Option (List RouterApnProfile) → Bool
list_is_numeric manual auto =
    any (λ p. is_num p.pdp_type || is_num p.ppp_auth_mode) (get_or_else manual [])
    || any (λ p. is_num p.pdp_type || is_num p.ppp_auth_mode) (get_or_else auto [])
