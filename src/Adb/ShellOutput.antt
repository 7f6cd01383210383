-- ===== src/Adb/ShellOutput.antt =====
-- What `shell` of web/src/lib/adb.ts collects, and that its loop ends.
use Prim.Native.String
use zte_u60_pro_mu5250_manag.Common.{
  ℕ, zero, suc, ◌+◌, ◌<◌, ◌≡◌, refl, Option, none, some, List, [], ◌∷◌, length, String, All, arith,
}
use zte_u60_pro_mu5250_manag.Adb.Wire.{Bytes, u32_mod, build_message, cmd_okay, cmd_wrte, cmd_clse}
use zte_u60_pro_mu5250_manag.Adb.Link.{Link, ok}
use zte_u60_pro_mu5250_manag.Adb.Client.{shell_loop}
use zte_u60_pro_mu5250_manag.Adb.Transfer.{Fits, recv_message-build_message, send_message-taken}

module _ (a b : ℕ) where
  -- The messages of a device that writes the pieces and closes the stream.
  abbrev pub writes : List Bytes → List (Option Bytes) → List (Option Bytes)
  writes [] rest = some (build_message cmd_clse a b none) ∷ rest
  writes (p ∷ ps) rest = some (build_message cmd_wrte a b (some p)) ∷ writes ps rest

module _ (here there : ℕ) where
  -- What is sent for them, the last first: an acknowledgement for each, and a close.
  abbrev pub replies : List Bytes → List Bytes → List Bytes
  replies [] sent = build_message cmd_clse here there none ∷ sent
  replies (p ∷ ps) sent = replies ps (build_message cmd_okay here there none ∷ sent)

module _ (decode : Bytes → String) where
  abbrev pub text_of : List Bytes → String → String
  text_of [] out = out
  text_of (p ∷ ps) out = text_of ps (String.◌++◌ out (decode p))

module _ (decode : Bytes → String) (here there a b : ℕ) (ha : a < u32_mod) (hb : b < u32_mod) where
  pub shell_loop-writes :
      (fuel m : ℕ) (ps : List Bytes) (rest : List (Option Bytes)) (out : String) (l : Link)
      → length ps < fuel
      → All Fits ps
      → l.inbox ≡ writes a b ps rest
      → l.accepts ≡ length ps + (m + 1)
      → shell_loop decode fuel here there out l ≡ (
        ok (text_of decode ps out),
        record l { inbox = rest; accepts = m; sent = replies here there ps l.sent },
      )
  unfolding shell_loop
  shell_loop-writes zero m ps rest out l h s i n = absurd (omega arith)
  shell_loop-writes (suc fuel) m [] rest out l h s i n = ground (
    arith,
    recv_message-build_message cmd_clse a b none rest l (omega arith) ha hb (omega arith) i,
    send_message-taken cmd_clse here there m none (record l { inbox = rest }) (omega (arith, n)),
  )
  shell_loop-writes (suc fuel) m (p ∷ ps) rest out l h (sp, ss) i n =
      let l1 : Link = record l { inbox = writes a b ps rest } in
      let l2 : Link = record l1 {
        accepts = length ps + (m + 1);
        sent = build_message cmd_okay here there none ∷ l.sent;
      } in
      ground (
        arith,
        recv_message-build_message cmd_wrte a b (some p) (writes a b ps rest) l (omega arith) ha hb
            sp i,
        send_message-taken cmd_okay here there (length ps + (m + 1)) none l1 (omega (arith, n)),
        shell_loop-writes fuel m ps rest (String.◌++◌ out (decode p)) l2 (omega (arith, h)) ss refl
            refl,
      )
