-- ===== src/Esim/Nickname.antt =====
-- What the readback of a renamed profile takes for done (web/src/app/(panel)/router/esim/page.tsx).
use zte_u60_pro_mu5250_manag.Common.{
  ◌≡◌, refl, ap, sym, ◌∙◌, true, false, some, List, [], ◌∷◌, if◌then◌else◌, Bool-cases, inl, inr,
  get_or_else,
}
use zte_u60_pro_mu5250_manag.Common.Texts.{text_eq, text_eq_refl, text_eq_sym, trim}
use zte_u60_pro_mu5250_manag.Esim.Page.{
  EsimProfile, NickRequest, NickAsked, NickEdit, find_profile, nickname_in, verify_nickname,
  ask_nickname, profile_label,
}

-- The card's profiles after it took the name.
unfoldable pub rename : NickRequest → List EsimProfile → List EsimProfile
unfolding text_eq
rename r [] = []
rename r (p ∷ ps) =
    (if text_eq p.iccid r.iccid then record p { nickname = some r.nickname } else p) ∷ rename r ps

nickname-rename :
    (r : NickRequest) (ps : List EsimProfile) (p : EsimProfile)
    → find_profile r.iccid ps ≡ some p
    → nickname_in (find_profile r.iccid (rename r ps)) ≡ r.nickname
unfolding rename find_profile
nickname-rename r [] p h = absurd cc
nickname-rename r (q ∷ ps) p h = elim (Bool-cases (text_eq q.iccid r.iccid)) [
  | inl e ↦ rw (e, e) refl
  | inr e ↦
      let later : find_profile r.iccid ps ≡ some p =
        sym (ap (λ b. if b then some q else find_profile r.iccid ps) e) ∙ h in
      rw (e, e) (nickname-rename r ps p later)
]

asks_in : NickRequest → NickAsked → NickRequest
asks_in r (NickAsked.asks s) = s
asks_in r _ = r

verify_request :
    (r : NickRequest) (p : EsimProfile) (ps : List EsimProfile)
    → r.iccid ≡ p.iccid
    → text_eq r.nickname (get_or_else p.nickname []) ≡ false
    → find_profile p.iccid ps ≡ some p
    → (verify_nickname r ps ≡ false) × (verify_nickname r (rename r ps) ≡ true)
unfolding verify_nickname
verify_request r p ps id new found =
    let here : find_profile r.iccid ps ≡ some p = ap (λ i. find_profile i ps) id ∙ found in
    (
      ap (λ o. text_eq (nickname_in o) r.nickname) here
          ∙ text_eq_sym (get_or_else p.nickname []) r.nickname
          ∙ new,
      ap (λ n. text_eq n r.nickname) (nickname-rename r ps p here) ∙ text_eq_refl r.nickname,
    )

-- The request that is asked for a profile is of that profile, its readback does not accept the
-- profiles before, and accepts them once the card took the name.
pub ask_nickname-rename :
    (e : NickEdit) (p : EsimProfile) (ps : List EsimProfile) (r : NickRequest)
    → ask_nickname (some e) p ≡ NickAsked.asks r
    → find_profile p.iccid ps ≡ some p
    → (r.iccid ≡ p.iccid)
      × (verify_nickname r ps ≡ false)
      × (verify_nickname r (rename r ps) ≡ true)
unfolding ask_nickname asks_in
ask_nickname-rename e p ps r h found = elim (Bool-cases (text_eq e.iccid p.iccid)) [
  | inr other ↦
      let no : NickAsked.not_editing ≡ NickAsked.asks r = rw⁻¹ h (rw other refl) in absurd cc
  | inl own ↦ elim (Bool-cases (text_eq (trim e.nickname) (get_or_else p.nickname []))) [
    | inl same ↦
        let no : NickAsked.closes ≡ NickAsked.asks r = rw⁻¹ h (rw (own, same) refl) in absurd cc
    | inr new ↦
        let asked : NickRequest = record {
          iccid = p.iccid;
          nickname = trim e.nickname;
          name = profile_label p;
        } in
        let is : NickAsked.asks asked ≡ NickAsked.asks r = rw⁻¹ h (rw (own, new) refl) in
        let same : asked ≡ r = ap (asks_in r) is in
        let (before, after) = verify_request asked p ps refl new found in
        rw⁻¹ same (refl, before, after)
  ]
]
