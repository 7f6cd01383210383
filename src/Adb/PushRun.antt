-- ===== src/Adb/PushRun.antt =====
-- A whole `push` of web/src/lib/adb.ts.
use zte_u60_pro_mu5250_manag.Common.{
  ℕ, ◌+◌, ◌≤◌, ◌<◌, ◌≡◌, ◌∙◌, refl, ap, Bool, true, false, Option, none, some, List, ◌∷◌, length,
  take, drop, arith,
}
use zte_u60_pro_mu5250_manag.Adb.Wire.{
  Bytes, u32_mod, build_message, get_u32, cmd_okay, cmd_wrte, cmd_open, cmd_clse,
}
use zte_u60_pro_mu5250_manag.Adb.Link.{AdbError, Link, ok, err}
use zte_u60_pro_mu5250_manag.Adb.Chunks.{chunks, push, push_stream, open_sync, close_sync}
use zte_u60_pro_mu5250_manag.Adb.Transfer.{Fits, >>=-eq-ok}
use zte_u60_pro_mu5250_manag.Adb.Push.{
  okays, push_sent, push_stream-to_verdict, open_sync-okay, close_sync-accepted, close_sync-failed,
  sync_request,
}

-- What an agreeing device sends: an acknowledgement of the stream, of the name, of every piece and
-- of the end, and its verdict.
abbrev pub agreeing : ℕ → ℕ → Bytes → Bytes → List (Option Bytes) → List (Option Bytes)
agreeing a b file verdict rest =
    let okay = some (build_message cmd_okay a b none) in
    okay
    ∷ okay
    ∷ okays a b (chunks file) (okay ∷ some (build_message cmd_wrte a b (some verdict)) ∷ rest)

module _ (is_fail : Bytes → Bool) (decimal : ℕ → Bytes) (now : ℕ) (file path : Bytes) (mode : ℕ)
    (a b m : ℕ) (verdict : Bytes) (rest : List (Option Bytes)) (l : Link) (ha : a < u32_mod)
    (hb : b < u32_mod) (hv : Fits verdict) (i : l.inbox ≡ agreeing a b file verdict rest) where
  at_verdict : ℕ → Link
  at_verdict n = record {
    inbox = some (build_message cmd_wrte a b (some verdict)) ∷ rest;
    accepts = n;
    sent =
        push_sent decimal now (l.local_id + 1) a file path mode
          (build_message cmd_open (l.local_id + 1) 0 sync_request ∷ l.sent);
    local_id = l.local_id + 1;
  }

  push-to_verdict :
      (n : ℕ)
      → l.accepts ≡ length (chunks file) + (n + 3)
      → push is_fail decimal now file path mode l
        ≡ close_sync is_fail (l.local_id + 1) a (at_verdict n)
  unfolding push at_verdict
  push-to_verdict n h =
      let okay = some (build_message cmd_okay a b none) in
      let after =
        okay
        ∷ okays a b (chunks file)
            (okay ∷ some (build_message cmd_wrte a b (some verdict)) ∷ rest) in
      let l1 : Link = record {
        inbox = after;
        accepts = length (chunks file) + (n + 2);
        sent = build_message cmd_open (l.local_id + 1) 0 sync_request ∷ l.sent;
        local_id = l.local_id + 1;
      } in
      >>=-eq-ok open_sync (λ s. push_stream is_fail decimal now file path mode s.0 s.1) l l1
        (l.local_id + 1, a)
        (open_sync-okay a b (length (chunks file) + (n + 2)) after l ha hb i (omega (arith, h)))
      ∙ push_stream-to_verdict is_fail decimal now file path mode (l.local_id + 1) a a b n
          (some (build_message cmd_wrte a b (some verdict)) ∷ rest) l1 ha hb refl refl

  -- A device that opens the stream, acknowledges every message and gives a verdict that fits in
  -- one transfer and is not FAIL has taken, and in this order, the request, the name with the mode, all pieces of the file,
  -- DONE, an acknowledgement and the end of the stream; the transfer then ends without an error.
  pub push_delivers :
      l.accepts ≡ length (chunks file) + (m + 5)
      → is_fail verdict ≡ false
      → push is_fail decimal now file path mode l ≡ (
        ok tt,
        record {
          inbox = rest;
          accepts = m;
          sent =
              build_message cmd_clse (l.local_id + 1) a none
              ∷ build_message cmd_okay (l.local_id + 1) a none
              ∷ push_sent decimal now
                  (l.local_id + 1)
                  a
                  file
                  path
                  mode
                  (build_message cmd_open (l.local_id + 1) 0 sync_request ∷ l.sent);
          local_id = l.local_id + 1;
        },
      )
  unfolding at_verdict
  push_delivers h f =
      push-to_verdict (m + 2) (omega (arith, h))
      ∙ close_sync-accepted is_fail (l.local_id + 1) a a b verdict rest (at_verdict (m + 2)) ha hb
          hv refl m f (omega arith)

  -- If a device that acknowledged every message up to DONE answers with FAIL and at least 8 bytes,
  -- the transfer ends with an error that carries the text behind the length given there.
  pub push_reports_failure :
      l.accepts ≡ length (chunks file) + (m + 3)
      → is_fail verdict ≡ true
      → 8 ≤ length verdict
      → (push is_fail decimal now file path mode l).0
        ≡ err (AdbError.push_failed (take (get_u32 4 verdict) (drop 8 verdict)))
  unfolding at_verdict
  push_reports_failure h f n =
      ap (λ r. r.0)
        (push-to_verdict m h
          ∙ close_sync-failed is_fail (l.local_id + 1) a a b verdict rest (at_verdict m) ha hb hv
              refl f n)
