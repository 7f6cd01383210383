-- ===== src/Home/Spells.antt =====
-- What the words of the home page tell (web/src/lib/home.ts, web/src/lib/connectState.ts).
use zte_u60_pro_mu5250_manag.Common.{
  ℕ, ◌+◌, ◌*◌, ◌/◌, ◌%◌, ◌≤◌, ◌<◌, ◌≡◌, refl, ◌↔◌, Bool, true, false, Option, none, some, ◌==◌,
  get_or_else, arith, ap, Bool-cases, inl, inr,
}
use zte_u60_pro_mu5250_manag.Common.Texts.{Text}
use zte_u60_pro_mu5250_manag.Home.Signal.{Numbers}
use zte_u60_pro_mu5250_manag.Home.Words.{
  SigState, sig_state, no_sim, is_negative, Uptime, uptime_parts, ConnectKind, connect_kind, Enable,
  data_switch_on, switch_of_call,
}

-- The days, hours and minutes that are shown are the time that the device is up, short of a minute.
pub uptime_parts_lem :
    (secs : ℕ) (u : Uptime)
    → uptime_parts (some secs) ≡ some u
    → (u.hours < 24)
      × (u.minutes < 60)
      × (60 * (60 * (24 * u.days + u.hours) + u.minutes) ≤ secs)
      × (secs < 60 * (60 * (24 * u.days + u.hours) + u.minutes) + 60)
unfolding uptime_parts
uptime_parts_lem secs u h = elim (Bool-cases (secs == 0)) [
  | inl e ↦ let no : none ≡ some u = rw⁻¹ h (rw e refl) in absurd cc
  | inr e ↦
      let parts : Uptime = record {
        days = secs / 86400;
        hours = (secs % 86400) / 3600;
        minutes = (secs % 3600) / 60;
      } in
      let same : some parts ≡ some u = rw⁻¹ h (rw e refl) in
      let is : parts ≡ u = ap (λ o. get_or_else o u) same in
      rw⁻¹ is (omega arith, omega arith, omega arith, omega arith)
]

-- The signal is good exactly where it was read, is read now, the SIM is ready or not told, and there
-- are three bars or more without a negative ratio.
pub sig_state_iff :
    {N : Type 0} (numbers : Numbers N) (ever_valid valid : Bool) (sim : Option Text)
    (bars : Option ℕ) (sinr : Option N)
    → (sig_state numbers ever_valid valid sim bars sinr ≡ SigState.good) ↔ (
        (ever_valid ≡ true)
        × (valid ≡ true)
        × (no_sim sim ≡ false)
        × (3 ≤ get_or_else bars 0)
        × (is_negative numbers sinr ≡ false))
unfolding sig_state
sig_state_iff numbers ever_valid valid sim bars sinr = ground arith

off_of_call : (k : ConnectKind) → (switch_of_call k ≡ some false) ↔ (k ≡ ConnectKind.disconnected)
off_of_call ConnectKind.connected = ((λ h. absurd cc), λ h. absurd cc)
off_of_call ConnectKind.connecting = ((λ h. absurd cc), λ h. absurd cc)
off_of_call ConnectKind.disconnected = ((λ h. refl), λ h. refl)
off_of_call ConnectKind.unknown = ((λ h. absurd cc), λ h. absurd cc)

-- Mobile data counts as off exactly where its switch says zero and the status is a word for no call.
pub data_switch_on_iff :
    (lower : Text → Text) (e : Enable) (status : Option Text)
    → (data_switch_on lower e status ≡ some false)
      ↔ ((e ≡ Enable.is_zero) × (connect_kind lower status ≡ ConnectKind.disconnected))
unfolding data_switch_on
data_switch_on_iff lower Enable.is_one status = ((λ h. absurd cc), λ h. absurd cc)
data_switch_on_iff lower Enable.is_other status = ((λ h. absurd cc), λ h. absurd cc)
data_switch_on_iff lower Enable.is_zero status =
    let call = off_of_call (connect_kind lower status) in ((λ h. (refl, call.0 h)), λ h. call.1 h.1)
