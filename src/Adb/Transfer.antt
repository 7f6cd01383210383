-- ===== src/Adb/Transfer.antt =====
-- A transfer of web/src/lib/adb.ts gives what the other side has sent.
use zte_u60_pro_mu5250_manag.Common.{
  refl, ◌∙◌, drop, ℕ, suc, ◌+◌, ◌≤◌, ◌<◌, ◌≡◌, ap, Option, none, some, List, [], ◌∷◌, length, arith,
}
use zte_u60_pro_mu5250_manag.Adb.Wire.{
  parse_message, Bytes, AdbHeader, u32_mod, data_or_empty, build_message,
}
use zte_u60_pro_mu5250_manag.Adb.WireRoundtrip.{build_message-payload, parse_message-build_message}
use zte_u60_pro_mu5250_manag.Adb.Link.{
  recv_parsed, recv_payload, AdbError, Link, recv, transfer_limit, taken_of, left_of, ok, err,
  Action, ◌>>=◌, ◌>>◌, recv_message, send_message, expect,
}

-- A message with data of this length fits in one transfer.
abbrev pub Fits : Bytes → Type 0
Fits bs = 24 + length bs ≤ transfer_limit

-- A transfer within the limit is handed over whole.
whole_transfer :
    (limit : ℕ) (bs : Bytes) (rest : List (Option Bytes))
    → length bs ≤ limit
    → (taken_of limit bs ≡ bs) × (left_of limit bs rest ≡ rest)
unfolding taken_of left_of
whole_transfer limit bs rest h = (ground arith, ground arith)

recv-whole :
    (bs : Bytes) (rest : List (Option Bytes)) (l : Link)
    → length bs ≤ transfer_limit
    → l.inbox ≡ some bs ∷ rest
    → recv l ≡ (ok bs, record l { inbox = rest })
unfolding recv
recv-whole bs rest l h e =
    let (whole, none_left) = whole_transfer transfer_limit bs rest h in cc (whole, none_left, e)

-- A run goes on where its first part ends.
pub >>-eq-ok :
    {A : Type 0} (m : Action Unit) (k : Action A) (l l' : Link)
    → m l ≡ (ok tt, l')
    → (m >> k) l ≡ k l'
>>-eq-ok m k l l' h = ap (λ r. elim r.0 [ ok a ↦ k r.1 | err e ↦ (err e, r.1) ]) h

pub >>-eq-err :
    {A : Type 0} (m : Action Unit) (k : Action A) (l l' : Link) (e : AdbError)
    → m l ≡ (err e, l')
    → (m >> k) l ≡ (err e, l')
>>-eq-err m k l l' e h = ap (λ r. elim r.0 [ ok a ↦ k r.1 | err e ↦ (err e, r.1) ]) h

pub >>=-eq-ok :
    {A B : Type 0} (m : Action A) (f : A → Action B) (l l' : Link) (a : A)
    → m l ≡ (ok a, l')
    → (m >>= f) l ≡ f a l'
>>=-eq-ok m f l l' a h = ap (λ r. elim r.0 [ ok a ↦ f a r.1 | err e ↦ (err e, r.1) ]) h

-- The rest of a message that arrived whole.
recv_parsed-whole :
    (buffer bs : Bytes) (h : AdbHeader) (l : Link)
    → length buffer ≡ 24 + length bs
    → drop 24 buffer ≡ bs
    → h.data_len ≡ length bs
    → recv_parsed buffer (some h) l ≡ (ok (record { header = h; payload = bs }), l)
unfolding recv_parsed recv_payload
recv_parsed-whole buffer [] h l e d n = ground arith
recv_parsed-whole buffer (b ∷ bs) h l e d n = ground arith

-- A message that the device sends in one transfer of at most 64 KiB, with fields of 32 bits, is
-- received as it was built.
pub recv_message-build_message :
    (cmd arg0 arg1 : ℕ) (bytes : Option Bytes) (rest : List (Option Bytes)) (l : Link)
    → cmd < u32_mod
    → arg0 < u32_mod
    → arg1 < u32_mod
    → Fits (data_or_empty bytes)
    → l.inbox ≡ some (build_message cmd arg0 arg1 bytes) ∷ rest
    → recv_message l ≡ (
      ok (record {
        header = record {
          cmd = cmd;
          arg0 = arg0;
          arg1 = arg1;
          data_len = length (data_or_empty bytes);
        };
        payload = data_or_empty bytes;
      }),
      record l { inbox = rest },
    )
unfolding recv_message
recv_message-build_message cmd arg0 arg1 bytes rest l h0 h1 h2 h3 e =
    let message = build_message cmd arg0 arg1 bytes in
    let bs = data_or_empty bytes in
    let (len, pay) = build_message-payload cmd arg0 arg1 bytes in
    let l1 : Link = record l { inbox = rest } in
    let header : AdbHeader = record { cmd = cmd; arg0 = arg0; arg1 = arg1; data_len = length bs } in
    >>=-eq-ok recv (λ buffer. recv_parsed buffer (parse_message buffer)) l l1 message
      (recv-whole message rest l (omega (arith, len, h3)) e)
    ∙ ap (λ parsed. recv_parsed message parsed l1)
        (parse_message-build_message cmd arg0 arg1 bytes h0 h1 h2 (omega (arith, h3)))
    ∙ recv_parsed-whole message bs header l1 len pay refl

-- An answer without data that has the command that is waited for.
pub expect-build_message :
    (cmd arg0 arg1 : ℕ) (e : AdbError) (rest : List (Option Bytes)) (l : Link)
    → cmd < u32_mod
    → arg0 < u32_mod
    → arg1 < u32_mod
    → l.inbox ≡ some (build_message cmd arg0 arg1 none) ∷ rest
    → expect cmd e l ≡ (
      ok (record {
        header = record { cmd = cmd; arg0 = arg0; arg1 = arg1; data_len = 0 };
        payload = [];
      }),
      record l { inbox = rest },
    )
unfolding expect
expect-build_message cmd arg0 arg1 e rest l h0 h1 h2 q =
    ground (arith, recv_message-build_message cmd arg0 arg1 none rest l h0 h1 h2 (omega arith) q)

-- A transfer that the device takes.
pub send_message-taken :
    (cmd arg0 arg1 n : ℕ) (bytes : Option Bytes) (l : Link)
    → l.accepts ≡ suc n
    → send_message cmd arg0 arg1 bytes l
      ≡ (ok tt, record l { accepts = n; sent = build_message cmd arg0 arg1 bytes ∷ l.sent })
unfolding send_message
send_message-taken cmd arg0 arg1 n bytes l h = ground arith
