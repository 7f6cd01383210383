-- ===== src/Apn/Kept.antt =====
-- What an edit of a profile keeps, and what its readback tells
-- (web/src/app/(panel)/router/apn/page.tsx).
use zte_u60_pro_mu5250_manag.Common.{
  ℕ, zero, suc, ◌+◌, ◌≤◌, ◌<◌, ◌≡◌, refl, sym, ap, ◌∙◌, ◌↔◌, ◌⊎◌, inl, inr, Bool, true, false, ◌&&◌,
  ◌||◌, any, not, some, List, [], if◌then◌else◌, get_or_else, Bool-cases, arith,
}
use zte_u60_pro_mu5250_manag.Common.Texts.{trim, text_eq, text_eq_refl}
use zte_u60_pro_mu5250_manag.Apn.Profiles.{
  not_blank, Value, RouterApnProfile, Apn, pdp_by_num, auth_by_num, label, shown, pdp_num, auth_num,
  one_of, pdp_types, auth_modes,
}
use zte_u60_pro_mu5250_manag.Apn.Saves.{
  AskedSave, ask_save, FormError, is_another, FormState, Submission, ProfileBody, start_edit,
  fields, check_saved, find_apn, settle,
}

pdp_again :
    (k : ℕ)
    → 1 ≤ k
    → k ≤ 3
    → (one_of pdp_types (label (Value.num k) pdp_by_num) ≡ true)
      × (pdp_num (label (Value.num k) pdp_by_num) ≡ k)
unfolding pdp_num label text_eq
pdp_again zero a b = absurd (omega arith)
pdp_again (suc zero) a b = (refl, refl)
pdp_again (suc (suc zero)) a b = (refl, refl)
pdp_again (suc (suc (suc zero))) a b = (refl, refl)
pdp_again (suc (suc (suc (suc k)))) a b = absurd (omega arith)

auth_again :
    (k : ℕ)
    → k ≤ 2
    → (one_of auth_modes (label (Value.num k) auth_by_num) ≡ true)
      × (auth_num (label (Value.num k) auth_by_num) ≡ k)
unfolding auth_num label text_eq
auth_again zero b = (refl, refl)
auth_again (suc zero) b = (refl, refl)
auth_again (suc (suc zero)) b = (refl, refl)
auth_again (suc (suc (suc k))) b = absurd (omega arith)

-- The fields of a body as the device lists them.
abbrev pub listed : RouterApnProfile → ProfileBody
listed p = record {
  profilename = get_or_else p.profilename [];
  wanapn = get_or_else p.wanapn [];
  pdp_type = p.pdp_type;
  ppp_auth_mode = p.ppp_auth_mode;
  roaming_pdp_type = p.roaming_pdp_type;
  username = get_or_else p.username [];
  password = get_or_else p.password [];
}

-- The profile with its three numbers.
abbrev pub with_numbers : RouterApnProfile → ℕ → ℕ → ℕ → RouterApnProfile
with_numbers p pdp auth roaming = record p {
  pdp_type = Value.num pdp;
  ppp_auth_mode = Value.num auth;
  roaming_pdp_type = Value.num roaming;
}

-- The form of an edit as `askSave` hands it on.
abbrev pub edited : Apn → Submission
edited a = record {
  form = record (start_edit a) { name = trim a.name; apn = trim a.apn };
  editing = some a;
}

-- What is sent for an edit that changes nothing.
abbrev pub trimmed : ProfileBody → ProfileBody
trimmed b = record b { profilename = trim b.profilename; wanapn = trim b.wanapn }

fields-edited_form :
    (p : RouterApnProfile) (pdp auth roaming : ℕ)
    → 1 ≤ pdp
    → pdp ≤ 3
    → auth ≤ 2
    → fields true (edited (shown (with_numbers p pdp auth roaming)))
      ≡ trimmed (listed (with_numbers p pdp auth roaming))
unfolding fields start_edit shown
fields-edited_form p pdp auth roaming a b c =
    let (known, number) = pdp_again pdp a b in
    let (mode, again) = auth_again auth c in rw (known, mode, number, again) refl

ready_if :
    (blank twice : Bool) (q r : Submission)
    → (if blank
        then AskedSave.wrong FormError.required
        else if twice
        then AskedSave.wrong FormError.duplicate
        else AskedSave.ready q)
      ≡ AskedSave.ready r
    → q ≡ r
ready_if blank twice q r h = ground arith

-- A save of an edit that changes nothing is refused for a blank name or access point, and for a name
-- that another profile has; otherwise it goes on with the trimmed form.
ask_save-edited :
    (profiles : List Apn) (a : Apn) (sub : Submission)
    → ask_save profiles (some a) (start_edit a) ≡ AskedSave.ready sub
    → edited a ≡ sub
unfolding ask_save start_edit
ask_save-edited profiles a sub h =
    ready_if (not (not_blank (trim a.name)) || not (not_blank (trim a.apn)))
      (any (λ p. text_eq p.name (trim a.name) && is_another (some a) p) profiles) (edited a) sub h

-- On a device that lists numbers, a profile with a type from 1 to 3 and an authentication from 0 to 2
-- is opened for editing and saved as it is shown: if the page does not refuse that, it sends the name
-- and the access point without outer white space, and all other fields as they are listed.
pub fields-edited :
    (profiles : List Apn) (p : RouterApnProfile) (pdp auth roaming : ℕ) (sub : Submission)
    → 1 ≤ pdp
    → pdp ≤ 3
    → auth ≤ 2
    → let a = shown (with_numbers p pdp auth roaming) in
      ask_save profiles (some a) (start_edit a) ≡ AskedSave.ready sub
      → fields true sub ≡ trimmed (listed (with_numbers p pdp auth roaming))
fields-edited profiles p pdp auth roaming sub a b c h =
    let one = shown (with_numbers p pdp auth roaming) in
    ap (fields true) (sym (ask_save-edited profiles one sub h))
    ∙ fields-edited_form p pdp auth roaming a b c

-- A list that still holds the edited profile as it was passes the readback of an edit that keeps its
-- name and access point, and does not make it the active one, whatever else the edit changes.
pub check_saved-unchanged :
    (list : List Apn) (e : Apn) (f : FormState)
    → find_apn (λ x. text_eq x.id e.id) list ≡ some e
    → f.name ≡ e.name
    → f.apn ≡ e.apn
    → (f.set_as_default && not e.active) ≡ false
    → check_saved (record { form = f; editing = some e }) list ≡ true
unfolding check_saved
check_saved-unchanged list e f h n a d =
    rw (h, n, a, text_eq_refl e.name, text_eq_refl e.apn) (kept f.set_as_default e.active d)
  where
    kept :
        (want active : Bool) → (want && not active) ≡ false → (if want then active else true) ≡ true
    kept want active d = ground arith

module _ {ℓ} {T : Type ℓ} (ok : T → Bool) (read : ℕ → T) where
  settle-found :
      (tries i : ℕ)
      → settle ok tries read i ≡ true
      → (k : ℕ) × (i ≤ k) × (k < i + tries) × (ok (read k) ≡ true)
  unfolding settle
  settle-found zero i h = absurd cc
  settle-found (suc tries) i h = elim (Bool-cases (ok (read i))) [
    | inl e ↦ (i, omega arith, omega arith, e)
    | inr e ↦
        let rest : settle ok tries read (suc i) ≡ true = ground (arith, e, h) in
        let (k, low, high, found) = settle-found tries (suc i) rest in
        (k, omega (arith, low), omega (arith, high), found)
  ]

  at_or_after : (i k : ℕ) → i ≤ k → (i ≡ k) ⊎ (suc i ≤ k)
  at_or_after i k h = omega arith

  settle-finds :
      (tries i k : ℕ) → i ≤ k → k < i + tries → ok (read k) ≡ true → settle ok tries read i ≡ true
  unfolding settle
  settle-finds zero i k a b h = absurd (omega arith)
  settle-finds (suc tries) i k a b h = elim (Bool-cases (ok (read i))) [
    | inl e ↦ rw e refl
    | inr e ↦ elim (at_or_after i k a) [
      | inl same ↦ absurd (cc (e, h, same))
      | inr after ↦ rw e (settle-finds tries (suc i) k after (omega (arith, b)) h)
    ]
  ]

  -- The reads of a readback succeed exactly where one of its tries reads what was asked for.
  pub settle_iff :
      (tries : ℕ)
      → (settle ok tries read 0 ≡ true)
        ↔ ((k : ℕ) × (0 ≤ k) × (k < 0 + tries) × (ok (read k) ≡ true))
  settle_iff tries = (settle-found tries 0, λ (k, a, b, h). settle-finds tries 0 k a b h)
