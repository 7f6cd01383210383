-- ===== src/Net/Remote.antt =====
-- Whether the page is reached over Tailscale (web/src/lib/api/remote.ts).
use zte_u60_pro_mu5250_manag.Common.{
  ℕ, zero, suc, ◌+◌, ◌-◌, ◌*◌, ◌/◌, ◌%◌, Bool, true, false, ◌&&◌, ◌||◌, not, Option, none, some,
  List, [], ◌∷◌, ◌++◌, map, if◌then◌else◌, ltb, leb, ◌==◌, length, any, all, drop, get_or_else,
}
use zte_u60_pro_mu5250_manag.Common.Hex.{hex_digit, is_hex, hex_value}
use zte_u60_pro_mu5250_manag.Common.Texts.{Text, codes, text_eq, trim, split, push_unit, is_digit}
use zte_u60_pro_mu5250_manag.Net.Ipv4.{Octets, parse_ipv4}

-- `s.includes(c)`, for one unit.
abbrev pub includes : ℕ → Text → Bool
includes c s = any (λ d. d == c) s

-- `s.endsWith(c)` and `s.slice(0, -1)`, for one unit.
unfoldable pub ends : ℕ → Text → Bool
ends c [] = false
ends c (d ∷ []) = d == c
ends c (d ∷ e ∷ s) = ends c (e ∷ s)

unfoldable pub but_last : Text → Text
but_last [] = []
but_last (c ∷ []) = []
but_last (c ∷ d ∷ s) = c ∷ but_last (d ∷ s)

-- `toLowerCase` of a host name, which is ASCII.
abbrev pub lower_unit : ℕ → ℕ
lower_unit c = if leb 65 c && leb c 90 then c + 32 else c

-- The text in front of the first zone mark, `s.split("%")[0]`.
abbrev pub before : ℕ → Text → Text
before sep [] = []
before sep (c ∷ s) = let rest = before sep s in if c == sep then [] else c ∷ rest

-- The text behind the last colon, and the text up to it.
abbrev pub after_last : ℕ → Text → Text
after_last sep [] = []
after_last sep (c ∷ s) =
    let rest = after_last sep s in if includes sep s then rest else if c == sep then s else c ∷ s

abbrev pub up_to_last : ℕ → Text → Text
up_to_last sep [] = []
up_to_last sep (c ∷ s) =
    let rest = up_to_last sep s in
    if includes sep s then c ∷ rest else if c == sep then c ∷ [] else []

-- `s.split("::")`.
unfoldable pub split_pairs : Text → List Text
split_pairs [] = [] ∷ []
split_pairs (c ∷ []) = (c ∷ []) ∷ []
split_pairs (c ∷ d ∷ s) =
    let skip = split_pairs s in
    let next = split_pairs (d ∷ s) in if c == 58 && d == 58 then [] ∷ skip else push_unit c next

-- `toString(16)` of a number of 16 bits.
abbrev pub hex_text : ℕ → Text
hex_text n =
    let d3 = hex_digit (n / 4096) in
    let d2 = hex_digit (n / 256 % 16) in
    let d1 = hex_digit (n / 16 % 16) in
    let d0 = hex_digit (n % 16) in
    if ltb n 16
    then d0 ∷ []
    else if ltb n 256
    then d1 ∷ d0 ∷ []
    else if ltb n 4096
    then d2 ∷ d1 ∷ d0 ∷ []
    else d3 ∷ d2 ∷ d1 ∷ d0 ∷ []

-- An address at the end of the text becomes two groups; none where it is no address.
abbrev pub with_tail : Text → Option Octets → Option Text
with_tail s none = none
with_tail s (some o) =
    some (up_to_last 58 s ++ (hex_text (o.a * 256 + o.b) ++ (58 ∷ hex_text (o.c * 256 + o.d))))

abbrev pub embedded : Text → Option Text
embedded s =
    if includes 46 (after_last 58 s) then with_tail s (parse_ipv4 (after_last 58 s)) else some s

abbrev pub to_groups : Text → List Text
to_groups [] = []
to_groups (c ∷ s) = split 58 (c ∷ s)

abbrev pub zeros : ℕ → List Text
zeros zero = []
zeros (suc n) = (48 ∷ []) ∷ zeros n

abbrev pub filled : List Text → List Text → Option (List Text)
filled head rest =
    let fill = 8 - length head - length rest in
    if ltb fill 1 then none else some (head ++ (zeros fill ++ rest))

abbrev pub groups_of : List Text → Option (List Text)
groups_of [] = none
groups_of (p ∷ []) = some (to_groups p)
groups_of (p ∷ q ∷ []) = filled (to_groups p) (to_groups q)
groups_of (p ∷ q ∷ r ∷ ps) = none

abbrev pub hex_number : ℕ → Text → ℕ
hex_number n [] = n
hex_number n (c ∷ s) = hex_number (16 * n + hex_value c) s

abbrev pub is_group : Text → Bool
is_group g = leb 1 (length g) && (leb (length g) 4 && all is_hex g)

unfoldable pub hextets_of : Option (List Text) → Option (List ℕ)
unfolding is_hex hex_value
hextets_of none = none
hextets_of (some groups) =
    if length groups == 8 && all is_group groups then some (map (hex_number 0) groups) else none

abbrev pub hextets_in : Option Text → Option (List ℕ)
hextets_in none = none
hextets_in (some s) = hextets_of (groups_of (split_pairs s))

-- `parseIPv6`.
unfoldable pub parse_ipv6 : Text → Option (List ℕ)
unfolding split_pairs split hextets_of hex_digit parse_ipv4
parse_ipv6 h = let s = before 37 h in if includes 58 s then hextets_in (embedded s) else none

abbrev pub is_tailnet_v6 : Option (List ℕ) → Bool
is_tailnet_v6 (some (a ∷ b ∷ c ∷ hs)) = a == 0xfd7a && b == 0x115c && c == 0xa1e0
is_tailnet_v6 hs = false

abbrev pub ends_with : Text → Text → Bool
ends_with suffix s =
    leb (length suffix) (length s) && text_eq (drop (length s - length suffix) s) suffix

abbrev pub name_or_v4 : Text → Option Octets → Bool
name_or_v4 h (some o) = o.a == 100 && leb 64 o.b && leb o.b 127
name_or_v4 h none =
    if all (λ c. is_digit c || c == 46) h
    then false
    else if ends_with (codes ".ts.net") h
    then true
    else if not (includes 46 h)
    then not (text_eq h (codes "localhost"))
    else false

-- `[…]` around a literal is dropped, then one dot at the end.
unfoldable pub bare_host : Text → Text
unfolding ends but_last
bare_host [] = []
bare_host (c ∷ s) =
    let h = if c == 91 && ends 93 (c ∷ s) then but_last s else c ∷ s in
    if ends 46 h then but_last h else h

abbrev pub remote_of : Text → Bool
remote_of [] = false
remote_of (c ∷ s) =
    if includes 58 (c ∷ s)
    then is_tailnet_v6 (parse_ipv6 (c ∷ s))
    else name_or_v4 (c ∷ s) (parse_ipv4 (c ∷ s))

-- `isRemoteHost`.
unfoldable pub is_remote_host : Text → Bool
unfolding trim bare_host parse_ipv6 parse_ipv4 is_digit text_eq
is_remote_host hostname = remote_of (bare_host (map lower_unit (trim hostname)))

-- `noteAgentViaTailscale`: an answer without the field keeps what is known.
unfoldable pub note_agent_via_tailscale : Bool → Option Bool → Bool
note_agent_via_tailscale via answer = get_or_else answer via

-- `isRemoteAccess`; `hostname` is that of `new URL(getApiBase())`, and none where that throws.
unfoldable pub is_remote_access : Bool → Option Text → Bool
unfolding is_remote_host
is_remote_access via none = via
is_remote_access via (some hostname) = via || is_remote_host hostname
