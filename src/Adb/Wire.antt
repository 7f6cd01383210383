-- ===== src/Adb/Wire.antt =====
-- The message format of web/src/lib/adb.ts. A `Uint8Array` is a list of numbers below 256.
use zte_u60_pro_mu5250_manag.Common.{
  ℕ, ◌+◌, ◌-◌, ◌*◌, ◌/◌, ◌%◌, Option, none, some, List, [], ◌∷◌, ◌++◌, if◌then◌else◌, ltb, length,
  drop,
}

abbrev pub Bytes : Type 0
Bytes = List ℕ

abbrev pub cmd_cnxn : ℕ
cmd_cnxn = 0x4e584e43

abbrev pub cmd_auth : ℕ
cmd_auth = 0x48545541

abbrev pub cmd_open : ℕ
cmd_open = 0x4e45504f

abbrev pub cmd_okay : ℕ
cmd_okay = 0x59414b4f

abbrev pub cmd_wrte : ℕ
cmd_wrte = 0x45545257

abbrev pub cmd_clse : ℕ
cmd_clse = 0x45534c43

abbrev pub auth_rsapublickey : ℕ
auth_rsapublickey = 3

abbrev pub version : ℕ
version = 0x01000001

abbrev pub max_data : ℕ
max_data = 256 * 1024

abbrev pub u32_mod : ℕ
u32_mod = 4294967296

pub record AdbHeader : Type 0 where
  pub cmd : ℕ
  pub arg0 : ℕ
  pub arg1 : ℕ
  pub data_len : ℕ

pub record AdbMessage : Type 0 where
  pub header : AdbHeader
  pub payload : Bytes

unfoldable pub sum_from : ℕ → Bytes → ℕ
sum_from acc [] = acc
sum_from acc (b ∷ bs) = sum_from (acc + b) bs

-- `checksum`: the sum as a 32-bit value, as `setUint32` stores it.
unfoldable pub checksum : Bytes → ℕ
unfolding sum_from
checksum bs = sum_from 0 bs % u32_mod

-- `setUint32(…, n, true)`.
unfoldable pub put_u32 : ℕ → Bytes
put_u32 n = (n % 256) ∷ (n / 256 % 256) ∷ (n / 65536 % 256) ∷ (n / 16777216 % 256) ∷ []

abbrev pub u32_of : Bytes → ℕ
u32_of (a ∷ b ∷ c ∷ d ∷ rest) = a + 256 * b + 65536 * c + 16777216 * d
u32_of _ = 0

-- `getUint32(offset, true)`, of bytes that reach so far.
unfoldable pub get_u32 : ℕ → Bytes → ℕ
get_u32 offset bs = u32_of (drop offset bs)

abbrev pub data_or_empty : Option Bytes → Bytes
data_or_empty none = []
data_or_empty (some bs) = bs

-- `(cmd ^ 0xffffffff) >>> 0`, for a 32-bit `cmd`.
abbrev pub magic : ℕ → ℕ
magic cmd = 4294967295 - cmd

-- `buildMessage`: 24 bytes of header, then the data.
unfoldable pub build_message : ℕ → ℕ → ℕ → Option Bytes → Bytes
unfolding put_u32 checksum
build_message cmd arg0 arg1 bytes =
    let bs = data_or_empty bytes in
    put_u32 cmd
    ++ (put_u32 arg0
        ++ (put_u32 arg1
            ++ (put_u32 (length bs) ++ (put_u32 (checksum bs) ++ (put_u32 (magic cmd) ++ bs)))))

-- `parseMessage`: none for fewer than 24 bytes.
unfoldable pub parse_message : Bytes → Option AdbHeader
unfolding get_u32
parse_message buffer =
    if ltb (length buffer) 24
    then none
    else some (record {
      cmd = get_u32 0 buffer;
      arg0 = get_u32 4 buffer;
      arg1 = get_u32 8 buffer;
      data_len = get_u32 12 buffer;
    })
