-- ===== src/Common/Hex.antt =====
-- Hexadecimal digits, as JavaScript prints and reads them.
use Prim.Native.Nat.{ℕ, ◌+◌, ◌-◌, ◌<◌}
use mathlib.Core.Path.{◌≡◌}
use mathlib.Core.Bool.{Bool, true, false, ◌&&◌, ◌||◌}
use native.Mathlib.Omega.{arith}
use zte_u60_pro_mu5250_manag.Common.Tests.{if◌then◌else◌, ltb, leb}
use zte_u60_pro_mu5250_manag.Common.Texts.{is_space}

-- A digit of `toString(16)`.
unfoldable pub hex_digit : ℕ → ℕ
hex_digit n = if ltb n 10 then 48 + n else 87 + n

-- `/^[0-9a-fA-F]+$/` at one unit, and its value.
unfoldable pub is_hex : ℕ → Bool
is_hex c = (leb 48 c && leb c 57) || (leb 97 c && leb c 102) || (leb 65 c && leb c 70)

unfoldable pub hex_value : ℕ → ℕ
hex_value c = if leb c 57 then c - 48 else if leb 97 c then c - 87 else c - 55

-- A digit is read back, and is no space.
pub hex_digit_lem :
    (n : ℕ)
    → n < 16
    → (hex_value (hex_digit n) ≡ n)
      × (is_hex (hex_digit n) ≡ true)
      × (is_space (hex_digit n) ≡ false)
unfolding hex_value hex_digit is_hex is_space
hex_digit_lem n h = (ground arith, ground arith, ground arith)
