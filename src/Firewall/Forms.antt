-- ===== src/Firewall/Forms.antt =====
-- The forms of the firewall page (web/src/app/(panel)/router/firewall/page.tsx).
use zte_u60_pro_mu5250_manag.Common.{
  Bool, true, false, ◌&&◌, ◌||◌, not, List, [], ◌∷◌, if◌then◌else◌, leb, ◌==◌, length, all,
}
use zte_u60_pro_mu5250_manag.Common.Texts.{Text, trim, split, is_digit, is_digits, number}

-- `/^\d+$/` and the bound of `isValidIPv4`.
abbrev pub is_part : Text → Bool
is_part p = leb 1 (length p) && all is_digit p && leb (number p) 255

-- `isValidIPv4`.
unfoldable pub is_valid_ipv4 : Text → Bool
unfolding split is_digit number
is_valid_ipv4 s = (length (split 46 s) == 4) && all is_part (split 46 s)

-- `/^\d{1,5}(-\d{1,5})?$/`, of the parts between hyphens.
abbrev pub are_ports : List Text → Bool
are_ports (p ∷ []) = is_digits 1 5 p
are_ports (p ∷ q ∷ []) = is_digits 1 5 p && is_digits 1 5 q
are_ports ps = false

abbrev pub in_ports : Text → Bool
in_ports p = leb 1 (number p) && leb (number p) 65535

-- `isPort`.
unfoldable pub is_port : Text → Bool
unfolding split is_digits number
is_port s = are_ports (split 45 s) && all in_ports (split 45 s)

pub record PfForm : Type 0 where
  pub name : Text
  pub protocol : Text
  pub wan : Text
  pub lan_ip : Text
  pub lan_port : Text
  pub enabled : Bool

pub data AddError : Type 0 where
  all_required invalid_lan_ip invalid_port : AddError

pub data AskedAdd : Type 0 where
  wrong : AddError → AskedAdd
  ready : PfForm → AskedAdd

abbrev pub is_empty_text : Text → Bool
is_empty_text [] = true
is_empty_text (c ∷ s) = false

abbrev pub trimmed : PfForm → PfForm
trimmed pf = record pf {
  name = trim pf.name;
  wan = trim pf.wan;
  lan_ip = trim pf.lan_ip;
  lan_port = trim pf.lan_port;
}

-- `askAdd`, up to the request of the trimmed form.
unfoldable pub ask_add : PfForm → AskedAdd
unfolding trim is_valid_ipv4 is_port
ask_add pf =
    let f = trimmed pf in
    if is_empty_text f.name
      || is_empty_text f.wan
      || is_empty_text f.lan_ip
      || is_empty_text f.lan_port
    then AskedAdd.wrong AddError.all_required
    else if not (is_valid_ipv4 f.lan_ip)
    then AskedAdd.wrong AddError.invalid_lan_ip
    else if not (is_port f.wan) || not (is_port f.lan_port)
    then AskedAdd.wrong AddError.invalid_port
    else AskedAdd.ready f

pub data AskedDmz : Type 0 where
  invalid_dmz_ip : AskedDmz
  set_dmz : Bool → Text → AskedDmz

-- `askDmz`.
unfoldable pub ask_dmz : Bool → Text → AskedDmz
unfolding trim is_valid_ipv4
ask_dmz on ip =
    if on && not (is_valid_ipv4 (trim ip))
    then AskedDmz.invalid_dmz_ip
    else AskedDmz.set_dmz on (trim ip)
