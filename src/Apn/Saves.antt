-- ===== src/Apn/Saves.antt =====
-- The form of a profile, what it sends, and how it is read back
-- (web/src/app/(panel)/router/apn/page.tsx).
use zte_u60_pro_mu5250_manag.Common.{
  ℕ, zero, suc, Bool, true, false, ◌&&◌, ◌||◌, not, Option, none, some, List, [], ◌∷◌,
  if◌then◌else◌, any,
}
use zte_u60_pro_mu5250_manag.Common.Texts.{Text, codes, text_eq, trim, is_digit, number}
use zte_u60_pro_mu5250_manag.Apn.Profiles.{
  Value, Apn, pdp_types, auth_modes, pdp_num, auth_num, one_of, is_number_text, not_blank,
}

pub record FormState : Type 0 where
  pub name : Text
  pub apn : Text
  pub username : Text
  pub password : Text
  pub pdp_type : Text
  pub ppp_auth_mode : Text
  pub set_as_default : Bool

-- The form that `startEdit` fills.
unfoldable pub start_edit : Apn → FormState
unfolding text_eq
start_edit p = record {
  name = p.name;
  apn = p.apn;
  username = p.username;
  password = p.password;
  pdp_type = if one_of pdp_types p.pdp then p.pdp else codes "IPv4";
  ppp_auth_mode = if one_of auth_modes p.auth then p.auth else codes "none";
  set_as_default = p.active;
}

pub data FormError : Type 0 where
  required duplicate : FormError

pub record Submission : Type 0 where
  pub form : FormState
  pub editing : Option Apn

pub data AskedSave : Type 0 where
  wrong : FormError → AskedSave
  ready : Submission → AskedSave

-- `p.id !== editing?.id`.
abbrev pub is_another : Option Apn → Apn → Bool
is_another none p = true
is_another (some e) p = not (text_eq p.id e.id)

-- `askSave`.
unfoldable pub ask_save : List Apn → Option Apn → FormState → AskedSave
unfolding trim text_eq
ask_save profiles editing f =
    let name = trim f.name in
    let apn = trim f.apn in
    if not (not_blank name) || not (not_blank apn)
    then AskedSave.wrong FormError.required
    else if any (λ p. text_eq p.name name && is_another editing p) profiles
    then AskedSave.wrong FormError.duplicate
    else AskedSave.ready (record { form = record f { name = name; apn = apn }; editing = editing })

-- `fields`: what is sent of the form.
pub record ProfileBody : Type 0 where
  pub profilename : Text
  pub wanapn : Text
  pub pdp_type : Value
  pub ppp_auth_mode : Value
  pub roaming_pdp_type : Value
  pub username : Text
  pub password : Text

abbrev pub roaming_of : Option Apn → Value
roaming_of none = Value.absent
roaming_of (some p) = p.roaming_raw

abbrev pub roaming_num : Value → ℕ → ℕ
roaming_num (Value.num n) pdp = n
roaming_num (Value.txt s) pdp = if is_number_text s then number s else pdp
roaming_num v pdp = pdp

unfoldable pub fields : Bool → Submission → ProfileBody
unfolding pdp_num auth_num number is_digit
fields numeric sub =
    let f = sub.form in
    let pdp = pdp_num f.pdp_type in
    record {
      profilename = f.name;
      wanapn = f.apn;
      pdp_type = if numeric then Value.num pdp else Value.txt f.pdp_type;
      ppp_auth_mode =
          if numeric then Value.num (auth_num f.ppp_auth_mode) else Value.txt f.ppp_auth_mode;
      roaming_pdp_type =
          if numeric then Value.num (roaming_num (roaming_of sub.editing) pdp) else Value.absent;
      username = f.username;
      password = f.password;
    }

pub data SaveStep : Type 0 where
  add : ProfileBody → SaveStep
  put : Text → ProfileBody → SaveStep
  activate : Text → SaveStep

-- `willActivate`, `saveSteps` and `saveRedials`.
abbrev pub activates : FormState → Apn → Bool
activates f p = f.set_as_default && not p.active

abbrev pub steps_for : FormState → ProfileBody → Option Apn → List SaveStep
steps_for f body none = SaveStep.add body ∷ []
steps_for f body (some p) =
    SaveStep.put p.id body ∷ (if activates f p then SaveStep.activate p.id ∷ [] else [])

unfoldable pub save_steps : Bool → Submission → List SaveStep
unfolding fields
save_steps numeric sub = steps_for sub.form (fields numeric sub) sub.editing

unfoldable pub save_redials : Submission → Bool
save_redials sub = elim sub.editing [ none ↦ false | some p ↦ p.active || activates sub.form p ]

-- `list.find(…)`.
unfoldable pub find_apn : (Apn → Bool) → List Apn → Option Apn
find_apn p [] = none
find_apn p (x ∷ xs) = if p x then some x else find_apn p xs

abbrev pub is_saved : FormState → Bool → Option Apn → Bool
is_saved f needs_active none = false
is_saved f needs_active (some p) =
    text_eq p.name f.name && text_eq p.apn f.apn && (if needs_active then p.active else true)

-- The check of `saveOp`.
unfoldable pub check_saved : Submission → List Apn → Bool
unfolding find_apn text_eq
check_saved sub list = elim sub.editing [
  | none ↦ is_saved sub.form false (find_apn (λ x. text_eq x.name sub.form.name) list)
  | some e ↦ is_saved sub.form sub.form.set_as_default (find_apn (λ x. text_eq x.id e.id) list)
]

-- `settle`: what is read at each try, and whether it is what was asked for.
unfoldable pub settle {ℓ} : {T : Type ℓ} → (T → Bool) → ℕ → (ℕ → T) → ℕ → Bool
settle ok zero read i = false
settle ok (suc tries) read i =
    let rest = settle ok tries read (suc i) in if ok (read i) then true else rest
