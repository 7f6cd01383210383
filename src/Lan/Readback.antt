-- ===== src/Lan/Readback.antt =====
-- What the LAN page takes for its own settings when it reads them back (`readbackMatches` of
-- web/src/app/(panel)/router/lan/page.tsx).
use mathlib.Core.Path.{subst}
use zte_u60_pro_mu5250_manag.Common.{
  ℕ, ◌≡◌, refl, Bool, true, false, ◌&&◌, ◌||◌, not, Option, none, some, if◌then◌else◌, ==_iff,
  bool_eq,
}
use zte_u60_pro_mu5250_manag.Common.Texts.{Text, text_eq, text_eq_refl, trim, trim-trim, codes}
use zte_u60_pro_mu5250_manag.Lan.Form.{
  LanForm, RouterLan, host_of, lease_seconds, is_one, lan_errors, no_errors,
}
use zte_u60_pro_mu5250_manag.Lan.Apply.{
  readback_matches, ask_apply, Pending, is_changed, same_lease,
}

same_lease_refl : (o : Option ℕ) → same_lease o o ≡ true
same_lease_refl none = refl
same_lease_refl (some n) = (==_iff n n).1 refl

abbrev pub switch_text : Bool → Text
switch_text b = if b then codes "1" else codes "0"

-- A device that stores a body: it keeps the address, the netmask and the switch as they are sent, the
-- range in a form of its own, and the lease time in a form of its own.
abbrev pub stored_lan : LanForm → Text → Text → Text → RouterLan
stored_lan f first last lease = record {
  lan_ipaddr = some f.lan_ipaddr;
  lan_netmask = some f.lan_netmask;
  dhcp_enable = some (switch_text f.dhcp_enable);
  dhcp_start = some first;
  dhcp_end = some last;
  dhcp_lease_time = some lease;
}

is_one-switch_text : (b : Bool) → bool_eq (is_one (some (switch_text b))) b ≡ true
unfolding text_eq
is_one-switch_text true = refl
is_one-switch_text false = refl

asked_of : (b : Bool) (q p : Pending) → (if b then none else some q) ≡ some p → q ≡ p
asked_of true q p h = absurd cc
asked_of false q p h = cc

trimmed_body :
    (busy remote : Bool) (form base : Option LanForm) (p : Pending)
    → ask_apply busy remote form base ≡ some p
    → (trim p.body.lan_ipaddr ≡ p.body.lan_ipaddr) × (trim p.body.lan_netmask ≡ p.body.lan_netmask)
unfolding ask_apply
trimmed_body busy remote none base p h = absurd cc
trimmed_body busy remote (some f) none p h = absurd cc
trimmed_body busy remote (some f) (some b) p h =
    let e = asked_of (busy || not (is_changed f b) || not (no_errors (lan_errors f))) _ p h in
    (
      subst (λ q. trim q.body.lan_ipaddr ≡ q.body.lan_ipaddr) e (trim-trim f.lan_ipaddr),
      subst (λ q. trim q.body.lan_netmask ≡ q.body.lan_netmask) e (trim-trim f.lan_netmask),
    )

readback_of :
    (f : LanForm) (first last lease : Text)
    → trim f.lan_ipaddr ≡ f.lan_ipaddr
    → trim f.lan_netmask ≡ f.lan_netmask
    → host_of first ≡ host_of f.dhcp_start
    → host_of last ≡ host_of f.dhcp_end
    → lease_seconds lease ≡ lease_seconds f.dhcp_lease_time
    → readback_matches f (stored_lan f first last lease) ≡ true
unfolding readback_matches
readback_of f first last lease i m a b c =
    rw
      (
        i,
        m,
        a,
        b,
        c,
        text_eq_refl f.lan_ipaddr,
        text_eq_refl f.lan_netmask,
        is_one-switch_text f.dhcp_enable,
        text_eq_refl (host_of f.dhcp_start),
        text_eq_refl (host_of f.dhcp_end),
        same_lease_refl (lease_seconds f.dhcp_lease_time),
      )
      (off_or_on f.dhcp_enable)
  where
    off_or_on : (b : Bool) → (true && true && true && (not b || (true && true && true))) ≡ true
    off_or_on true = refl
    off_or_on false = refl

-- A body that the page asks to send is found again in an answer with the same address, netmask and
-- switch, when the ends of the range have the same host numbers and the lease the same seconds.
pub readback_matches-ask_apply :
    (busy remote : Bool) (form base : Option LanForm) (p : Pending) (first last lease : Text)
    → ask_apply busy remote form base ≡ some p
    → host_of first ≡ host_of p.body.dhcp_start
    → host_of last ≡ host_of p.body.dhcp_end
    → lease_seconds lease ≡ lease_seconds p.body.dhcp_lease_time
    → readback_matches p.body (stored_lan p.body first last lease) ≡ true
readback_matches-ask_apply busy remote form base p first last lease h a b c =
    let (i, m) = trimmed_body busy remote form base p h in
    readback_of p.body first last lease i m a b c
