-- ===== src/Tests/ApnRuns.antt =====
-- Profiles of access points (web/src/app/(panel)/router/apn/page.tsx).
use zte_u60_pro_mu5250_manag.Common.{◌≡◌, refl, true, some, none, [], ◌∷◌, arith}
use zte_u60_pro_mu5250_manag.Common.Texts.{codes, trim}
use zte_u60_pro_mu5250_manag.Apn.Profiles.{Value, RouterApnProfile, Apn, shown, normalize}
use zte_u60_pro_mu5250_manag.Apn.Saves.{
  FormState, fields, start_edit, check_saved, ask_save, AskedSave, FormError,
}
use zte_u60_pro_mu5250_manag.Apn.Kept.{trimmed, with_numbers, edited, listed, fields-edited}

abbrev profile : RouterApnProfile
profile = record {
  cid = some 4;
  profile_id = Value.txt [];
  profilename = some (codes "Mine");
  wanapn = some (codes "net");
  username = none;
  password = some (codes "pw");
  pdp_type = Value.num 3;
  roaming_pdp_type = Value.num 1;
  ppp_auth_mode = Value.num 2;
  is_enable = Value.txt (codes "ON");
}

abbrev mine : Apn
mine = record {
  id = codes "4";
  name = codes "Mine";
  apn = codes "net";
  username = [];
  password = codes "pw";
  pdp = codes "IPv4v6";
  auth = codes "CHAP";
  roaming_raw = Value.num 1;
  active = true;
}

normalize_run :
    normalize (some (profile ∷ record profile { profilename = none; wanapn = none } ∷ []))
    ≡ mine ∷ []
unfolding normalize
normalize_run = refl

-- A type that the page has no name for is sent as IPv4 by an edit.
unknown_type_run :
    (fields true (edited (shown (record profile { pdp_type = Value.num 7 })))).pdp_type
    ≡ Value.num 1
unfolding fields start_edit shown
unknown_type_run = refl

duplicate_run : ask_save (mine ∷ []) none (start_edit mine) ≡ AskedSave.wrong FormError.duplicate
unfolding ask_save start_edit
duplicate_run = refl

abbrev spaced : RouterApnProfile
spaced = record profile { profilename = some (codes " Mine ") }

abbrev opened : Apn
opened = shown (with_numbers spaced 2 1 3)

opened_run :
    ask_save (opened ∷ []) (some opened) (start_edit opened) ≡ AskedSave.ready (edited opened)
unfolding ask_save start_edit trim shown
opened_run = refl

fields-edited_example : fields true (edited opened) ≡ trimmed (listed (with_numbers spaced 2 1 3))
fields-edited_example =
    fields-edited (opened ∷ []) spaced 2 1 3 (edited opened) (omega arith) (omega arith)
      (omega arith) opened_run

-- The form of an edit that only sets another password.
abbrev new_password : FormState
new_password = record {
  name = codes "Mine";
  apn = codes "net";
  username = [];
  password = codes "new";
  pdp_type = codes "IPv4v6";
  ppp_auth_mode = codes "CHAP";
  set_as_default = true;
}

-- A list that still has the old password passes its readback.
password_run : check_saved (record { form = new_password; editing = some mine }) (mine ∷ []) ≡ true
unfolding check_saved
password_run = refl
