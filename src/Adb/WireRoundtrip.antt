-- ===== src/Adb/WireRoundtrip.antt =====
-- What is built is read back (web/src/lib/adb.ts).
use zte_u60_pro_mu5250_manag.Common.{
  ℕ, ◌+◌, ◌<◌, ◌≡◌, refl, Option, some, ◌++◌, length, drop, arith,
}
use zte_u60_pro_mu5250_manag.Adb.Wire.{
  Bytes, put_u32, u32_of, u32_mod, data_or_empty, build_message, parse_message,
}

u32_of-put : (n : ℕ) (rest : Bytes) → n < u32_mod → u32_of (put_u32 n ++ rest) ≡ n
unfolding put_u32
u32_of-put n rest h = omega arith

-- A built message is 24 bytes longer than its data, and its data stands behind the header.
pub build_message-payload :
    (cmd arg0 arg1 : ℕ) (bytes : Option Bytes)
    → (length (build_message cmd arg0 arg1 bytes) ≡ 24 + length (data_or_empty bytes))
      × (drop 24 (build_message cmd arg0 arg1 bytes) ≡ data_or_empty bytes)
unfolding build_message
build_message-payload cmd arg0 arg1 bytes = (omega arith, refl)

-- A message whose fields fit in 32 bits and whose data is shorter than 4 GiB is parsed to the
-- command, the arguments and the length that it was built from.
pub parse_message-build_message :
    (cmd arg0 arg1 : ℕ) (bytes : Option Bytes)
    → cmd < u32_mod
    → arg0 < u32_mod
    → arg1 < u32_mod
    → length (data_or_empty bytes) < u32_mod
    → parse_message (build_message cmd arg0 arg1 bytes)
      ≡ some
          (record { cmd = cmd; arg0 = arg0; arg1 = arg1; data_len = length (data_or_empty bytes) })
unfolding parse_message build_message
parse_message-build_message cmd arg0 arg1 bytes h0 h1 h2 h3 = ground arith
