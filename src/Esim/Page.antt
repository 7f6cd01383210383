-- ===== src/Esim/Page.antt =====
-- The profiles of the eSIM card, the writes of the page and their readbacks
-- (web/src/app/(panel)/router/esim/page.tsx, web/src/lib/api/schemas/esim.ts).
use zte_u60_pro_mu5250_manag.Common.{
  ℕ, Bool, true, false, not, ◌&&◌, ◌||◌, Option, none, some, List, [], ◌∷◌, any, length,
  if◌then◌else◌, ltb, get_or_else, ◌==◌, ◌+◌,
}
use zte_u60_pro_mu5250_manag.Common.Texts.{Text, text_eq, trim}
use zte_u60_pro_mu5250_manag.Esim.Jobs.{JobEnd}

-- A profile, without what the page does not read.
pub record EsimProfile : Type 0 where
  pub iccid : Text
  pub is_enabled : Bool
  pub nickname : Option Text
  pub provider : Text
  pub profile_name : Text

pub record EsimProfiles : Type 0 where
  pub installed : Bool
  pub is_busy : Bool
  pub profiles : Option (List EsimProfile)

-- `readProfiles`: a busy card is no answer.
unfoldable pub read_profiles : EsimProfiles → Option (List EsimProfile)
read_profiles d = if d.is_busy then none else d.profiles

-- `a || b`, of texts.
abbrev pub text_else : Text → Text → Text
text_else [] b = b
text_else (c ∷ a) b = c ∷ a

-- `nameOf`.
unfoldable pub profile_label : EsimProfile → Text
profile_label p =
    text_else (get_or_else p.nickname []) (text_else p.provider (text_else p.profile_name p.iccid))

-- The list that is shown: the last one that was read, while the card is busy.
unfoldable pub shown_list :
    Option EsimProfiles → Option (List EsimProfile) → Option (List EsimProfile)
shown_list none kept = kept
shown_list (some d) kept = elim d.profiles [ none ↦ kept | some ps ↦ some ps ]

unfoldable pub find_profile : Text → List EsimProfile → Option EsimProfile
unfolding text_eq
find_profile iccid [] = none
find_profile iccid (p ∷ ps) = if text_eq p.iccid iccid then some p else find_profile iccid ps

unfoldable pub find_enabled : List EsimProfile → Option EsimProfile
find_enabled [] = none
find_enabled (p ∷ ps) = if p.is_enabled then some p else find_enabled ps

abbrev pub enabled_in : Option EsimProfile → Bool
enabled_in none = false
enabled_in (some p) = p.is_enabled

abbrev pub nickname_in : Option EsimProfile → Text
nickname_in none = []
nickname_in (some p) = get_or_else p.nickname []

-- The readbacks of a switch, of a deletion, of a download and of the notifications.
unfoldable pub verify_switch : Text → List EsimProfile → Bool
unfolding find_profile
verify_switch iccid ps = enabled_in (find_profile iccid ps)

unfoldable pub verify_delete : Text → List EsimProfile → Bool
unfolding text_eq
verify_delete iccid ps = not (any (λ p. text_eq p.iccid iccid) ps)

unfoldable pub verify_download : ℕ → List EsimProfile → Bool
verify_download before ps = ltb before (length ps)

unfoldable pub verify_sent {ℓ} : {A : Type ℓ} → Option (List A) → Option Bool
verify_sent none = none
verify_sent (some []) = some true
verify_sent (some (_ ∷ _)) = some false

pub record NickRequest : Type 0 where
  pub iccid : Text
  pub nickname : Text
  pub name : Text

unfoldable pub verify_nickname : NickRequest → List EsimProfile → Bool
unfolding text_eq find_profile
verify_nickname r ps = text_eq (nickname_in (find_profile r.iccid ps)) r.nickname

-- What `askNickname` makes of the box: nothing, a box that is closed, or a request.
pub data NickAsked : Type 0 where
  not_editing closes : NickAsked
  asks : NickRequest → NickAsked

pub record NickEdit : Type 0 where
  pub iccid : Text
  pub nickname : Text

-- `askNickname`.
unfoldable pub ask_nickname : Option NickEdit → EsimProfile → NickAsked
unfolding text_eq trim profile_label
ask_nickname none p = NickAsked.not_editing
ask_nickname (some e) p =
    if not (text_eq e.iccid p.iccid)
    then NickAsked.not_editing
    else if text_eq (trim e.nickname) (get_or_else p.nickname [])
    then NickAsked.closes
    else NickAsked.asks
        (record { iccid = p.iccid; nickname = trim e.nickname; name = profile_label p })

-- `/^LPA:1\$/i` and `/^1\$/`.
abbrev pub is_letter : ℕ → ℕ → Bool
is_letter upper c = (c == upper) || (c == upper + 32)

abbrev pub starts_lpa : Text → Bool
starts_lpa (a ∷ b ∷ c ∷ d ∷ e ∷ f ∷ s) =
    is_letter 76 a && is_letter 80 b && is_letter 65 c && (d == 58) && (e == 49) && (f == 36)
starts_lpa _ = false

abbrev pub starts_one : Text → Bool
starts_one (a ∷ b ∷ s) = (a == 49) && (b == 36)
starts_one _ = false

pub record DownloadRequest : Type 0 where
  pub code : Text
  pub confirmation_code : Option Text
  pub before : ℕ

abbrev pub count_of : Option (List EsimProfile) → ℕ
count_of none = 0
count_of (some ps) = length ps

abbrev pub given_text : Text → Option Text
given_text [] = none
given_text (c ∷ s) = some (c ∷ s)

-- `askDownload`: none for a code that is not an activation code.
unfoldable pub ask_download : Text → Text → Option (List EsimProfile) → Option DownloadRequest
unfolding trim
ask_download code conf ps =
    if not (starts_lpa (trim code)) && not (starts_one (trim code))
    then none
    else some (record {
      code = trim code;
      confirmation_code = given_text (trim conf);
      before = count_of ps;
    })

-- What the step of a switch leaves: whether the page waits for a restart, the reason of a failed job,
-- and whether the step throws.
pub record SwitchStep : Type 0 where
  pub waits_reboot : Bool
  pub switch_reason : Text
  pub throws : Bool

unfoldable pub switch_step {ℓ} : {E : Type ℓ} → JobEnd E → SwitchStep
switch_step (JobEnd.returned j) = record {
  waits_reboot = j.rebooting;
  switch_reason = [];
  throws = false;
}
switch_step (JobEnd.job_error message reason) = record {
  waits_reboot = false;
  switch_reason = reason;
  throws = true;
}
switch_step _ = record { waits_reboot = false; switch_reason = []; throws = true }
