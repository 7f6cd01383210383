-- ===== src/Adb/ShellRun.antt =====
-- A whole `shell` of web/src/lib/adb.ts: its answer, and the end of its loop.
use Prim.Native.String
use zte_u60_pro_mu5250_manag.Common.{
  ℕ, zero, suc, ◌+◌, ◌<◌, ◌≡◌, ◌≢◌, ◌∙◌, refl, ◌⊎◌, inl, inr, Option, none, some, List, [], ◌∷◌,
  length, drop, length-drop, String, ◌==◌, Bool-cases, All, ltb, arith,
}
use zte_u60_pro_mu5250_manag.Adb.Wire.{
  Bytes, AdbHeader, AdbMessage, u32_mod, build_message, parse_message, cmd_okay, cmd_wrte, cmd_open,
  cmd_clse,
}
use zte_u60_pro_mu5250_manag.Adb.Link.{
  waiting, taken_of, left_of, transfer_limit, AdbError, Link, Result, ok, err, ◌>>=◌, send_message,
  send, recv, recv_payload, recv_parsed, recv_message, expect, next_local_id,
}
use zte_u60_pro_mu5250_manag.Adb.Client.{shell_request, shell_loop, shell_read, shell}
use zte_u60_pro_mu5250_manag.Adb.Transfer.{
  Fits, send_message-taken, expect-build_message, >>=-eq-ok, >>-eq-ok,
}
use zte_u60_pro_mu5250_manag.Adb.ShellOutput.{writes, replies, text_of, shell_loop-writes}

-- A step that ends with a value and leaves fewer than `n` transfers, or ends with an error of its own.
abbrev Leaves : {A : Type 0} → ℕ → Result A × Link → Type 0
Leaves {A} n r =
    ((x : A) × (l' : Link) × (r ≡ (ok x, l')) × (waiting l'.inbox < n))
    ⊎ ((e : AdbError) × (l' : Link) × (r ≡ (err e, l')) × (e ≢ AdbError.out_of_fuel))

send_message-Leaves :
    (cmd arg0 arg1 : ℕ) (bytes : Option Bytes) (l : Link) (n : ℕ)
    → l.accepts ≡ n
    → Leaves (waiting l.inbox + 1) (send_message cmd arg0 arg1 bytes l)
unfolding send_message send
send_message-Leaves cmd arg0 arg1 bytes l zero h =
    inr (AdbError.timed_out, l, ground arith, λ q. ground arith)
send_message-Leaves cmd arg0 arg1 bytes l (suc n) h = inl (
  tt,
  record l { accepts = n; sent = build_message cmd arg0 arg1 bytes ∷ l.sent },
  ground arith,
  omega arith,
)

-- Taking from a transfer leaves less than there was.
waiting-left_of :
    (limit : ℕ) (bs : Bytes) (rest : List (Option Bytes))
    → 0 < limit
    → waiting (left_of limit bs rest) < suc (length bs + waiting rest)
unfolding left_of
waiting-left_of limit bs rest p = elim (Bool-cases (ltb limit (length bs))) [
  | inl e ↦ ground (arith, length-drop limit bs)
  | inr e ↦ ground arith
]

recv-Leaves :
    (l : Link) (inbox : List (Option Bytes)) → l.inbox ≡ inbox → Leaves (waiting l.inbox) (recv l)
unfolding recv
recv-Leaves l [] h = inr (AdbError.timed_out, l, ground arith, λ q. ground arith)
recv-Leaves l (none ∷ rest) h =
    inr (AdbError.timed_out, record l { inbox = rest }, ground arith, λ q. ground arith)
recv-Leaves l (some bs ∷ rest) h = inl (
  taken_of transfer_limit bs,
  record l { inbox = left_of transfer_limit bs rest },
  cc h,
  ground (arith, waiting-left_of transfer_limit bs rest (omega arith)),
)

recv_payload-Leaves :
    (buffer : Bytes) (h : AdbHeader) (l : Link)
    → Leaves (waiting l.inbox + 1) (recv_payload buffer h l)
unfolding recv_payload
recv_payload-Leaves buffer h l = elim (Bool-cases (ltb 24 (length buffer))) [
  | inl e ↦ inl (drop 24 buffer, l, ground arith, omega arith)
  | inr e ↦ elim (Bool-cases (ltb 0 h.data_len)) [
    | inr z ↦ inl ([], l, ground arith, omega arith)
    | inl z ↦ elim (recv-Leaves l l.inbox refl) [
      | inl (bs, l', q, s) ↦ inl (bs, l', ground arith, omega (arith, s))
      | inr (d, l', q, s) ↦ inr (d, l', ground arith, s)
    ]
  ]
]

recv_parsed-Leaves :
    (buffer : Bytes) (h : Option AdbHeader) (l : Link)
    → Leaves (waiting l.inbox + 1) (recv_parsed buffer h l)
unfolding recv_parsed
recv_parsed-Leaves buffer none l = inr (AdbError.not_parsed, l, ground arith, λ q. ground arith)
recv_parsed-Leaves buffer (some h) l = elim (recv_payload-Leaves buffer h l) [
  | inl (bs, l', q, s) ↦ inl (record { header = h; payload = bs }, l', ground arith, s)
  | inr (d, l', q, s) ↦ inr (d, l', ground arith, s)
]

recv_message-Leaves : (l : Link) → Leaves (waiting l.inbox) (recv_message l)
unfolding recv_message
recv_message-Leaves l = elim (recv-Leaves l l.inbox refl) [
  | inr (d, l', q, s) ↦ inr (d, l', ground arith, s)
  | inl (buffer, l', q, s) ↦ elim (recv_parsed-Leaves buffer (parse_message buffer) l') [
    | inl (msg, l'', r, t) ↦ inl (msg, l'', ground arith, omega (arith, s, t))
    | inr (d, l'', r, t) ↦ inr (d, l'', ground arith, t)
  ]
]

length-writes :
    (a b : ℕ) (ps : List Bytes) (rest : List (Option Bytes))
    → length ps < suc (waiting (writes a b ps rest))
length-writes a b [] rest = omega arith
length-writes a b (p ∷ ps) rest = omega (arith, length-writes a b ps rest)

module _ (decode : Bytes → String) where
  shell_loop-ends :
      (fuel here there : ℕ) (out : String) (l : Link)
      → waiting l.inbox < fuel
      → (shell_loop decode fuel here there out l).0 ≢ err AdbError.out_of_fuel
  unfolding shell_loop
  shell_loop-ends zero here there out l h = absurd (omega arith)
  shell_loop-ends (suc fuel) here there out l h = elim (recv_message-Leaves l) [
    | inr (d, l1, q, s) ↦ λ z. s (ground arith)
    | inl (msg, l1, q, s) ↦ elim (Bool-cases (msg.header.cmd == cmd_wrte)) [
      | inl w ↦ elim (send_message-Leaves cmd_okay here there none l1 l1.accepts refl) [
        | inr (d, l2, r, t) ↦ λ z. t (ground arith)
        | inl (u, l2, r, t) ↦
            let out' = String.◌++◌ out (decode msg.payload) in
            λ z. shell_loop-ends fuel here there out' l2 (omega (arith, h, s, t)) (ground arith)
      ]
      | inr nw ↦ elim (Bool-cases (msg.header.cmd == cmd_clse)) [
        | inl c ↦ elim (send_message-Leaves cmd_clse here there none l1 l1.accepts refl) [
          | inr (d, l2, r, t) ↦ λ z. t (ground arith)
          | inl (u, l2, r, t) ↦ λ z. ground arith
        ]
        | inr nc ↦ λ z. shell_loop-ends fuel here there out l1 (omega (arith, h, s)) (ground arith)
      ]
    ]
  ]

  -- The loop of a shell command ends, whatever the device sends: the passes that are given are
  -- enough.
  pub shell_read_ends :
      (here there : ℕ) (l : Link) → (shell_read decode here there l).0 ≢ err AdbError.out_of_fuel
  unfolding shell_read
  shell_read_ends here there l =
      shell_loop-ends (suc (waiting l.inbox)) here there "" l (omega arith)

  -- A device that opens the stream, writes the pieces in turn, each in one transfer of at most
  -- 64 KiB with its header, and closes gets an acknowledgement for each piece and a close, and the
  -- command returns the texts of the pieces in this order.
  pub shell_collects :
      (command : Bytes) (a b m : ℕ) (ps : List Bytes) (rest : List (Option Bytes)) (l : Link)
      → a < u32_mod
      → b < u32_mod
      → All Fits ps
      → l.inbox ≡ some (build_message cmd_okay a b none) ∷ writes a b ps rest
      → l.accepts ≡ length ps + (m + 2)
      → shell decode command l ≡ (
        ok (text_of decode ps ""),
        record {
          inbox = rest;
          accepts = m;
          sent =
              replies
                (l.local_id + 1)
                a
                ps
                (build_message cmd_open (l.local_id + 1) 0 (some (shell_request command)) ∷ l.sent);
          local_id = l.local_id + 1;
        },
      )
  unfolding shell shell_read next_local_id
  shell_collects command a b m ps rest l ha hb hp i n =
      let l0 : Link = record l { local_id = l.local_id + 1 } in
      let l1 : Link = record l0 {
        accepts = length ps + (m + 1);
        sent = build_message cmd_open (l.local_id + 1) 0 (some (shell_request command)) ∷ l.sent;
      } in
      let l2 : Link = record l1 { inbox = writes a b ps rest } in
      let sent_open = send_message cmd_open (l.local_id + 1) 0 (some (shell_request command)) in
      let read = λ (msg : AdbMessage). shell_read decode (l.local_id + 1) msg.header.arg0 in
      let answer : AdbMessage = record {
        header = record { cmd = cmd_okay; arg0 = a; arg1 = b; data_len = 0 };
        payload = [];
      } in
      >>-eq-ok sent_open (expect cmd_okay AdbError.no_shell >>= read) l0 l1 (
        send_message-taken cmd_open (l.local_id + 1) 0 (length ps + (m + 1))
          (some (shell_request command)) l0 (omega (arith, n)))
      ∙ >>=-eq-ok (expect cmd_okay AdbError.no_shell) read l1 l2 answer (
          expect-build_message cmd_okay a b AdbError.no_shell (writes a b ps rest) l1 (omega arith)
            ha hb i)
      ∙ shell_loop-writes decode (l.local_id + 1) a a b ha hb (suc (waiting (writes a b ps rest))) m
          ps rest "" l2 (length-writes a b ps rest) hp refl refl
