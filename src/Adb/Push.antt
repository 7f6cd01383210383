-- ===== src/Adb/Push.antt =====
-- What `push` of web/src/lib/adb.ts sends to a device that acknowledges every message.
use zte_u60_pro_mu5250_manag.Common.{
  ℕ, suc, ◌+◌, ◌/◌, ◌≤◌, ◌<◌, ◌≡◌, ◌∙◌, refl, Bool, true, false, Option, none, some, List, [], ◌∷◌,
  ◌++◌, length, drop, take, arith,
}
use zte_u60_pro_mu5250_manag.Adb.Wire.{
  AdbMessage, Bytes, u32_mod, build_message, put_u32, get_u32, cmd_okay, cmd_wrte, cmd_open,
  cmd_clse,
}
use zte_u60_pro_mu5250_manag.Adb.Link.{
  recv_message, send_message, AdbError, Link, ok, err, ◌>>◌, next_local_id,
}
use zte_u60_pro_mu5250_manag.Adb.Chunks.{
  chunks, packet, id_data, id_send, id_done, push_chunks, push_stream, open_sync, close_sync,
  send_acked, read_verdict,
}
use zte_u60_pro_mu5250_manag.Adb.Transfer.{
  >>=-eq-ok, >>-eq-err, Fits, recv_message-build_message, expect-build_message, send_message-taken,
  >>-eq-ok,
}

-- "sync:\0".
abbrev pub sync_request : Option Bytes
sync_request = some (115 ∷ 121 ∷ 110 ∷ 99 ∷ 58 ∷ 0 ∷ [])

-- One acknowledgement for each piece, then the rest.
abbrev pub okays : ℕ → ℕ → List Bytes → List (Option Bytes) → List (Option Bytes)
okays a b [] rest = rest
okays a b (c ∷ cs) rest = some (build_message cmd_okay a b none) ∷ okays a b cs rest

-- The pieces as they are sent, onto what was sent before.
abbrev pub pieces_sent : ℕ → ℕ → List Bytes → List Bytes → List Bytes
pieces_sent here there [] sent = sent
pieces_sent here there (c ∷ cs) sent =
    pieces_sent here there cs (build_message cmd_wrte here there (some (packet id_data c)) ∷ sent)

send_acked-okay :
    (here there a b n : ℕ) (bs : Bytes) (e : AdbError) (rest : List (Option Bytes)) (l : Link)
    → a < u32_mod
    → b < u32_mod
    → l.inbox ≡ some (build_message cmd_okay a b none) ∷ rest
    → l.accepts ≡ suc n
    → send_acked here there bs e l ≡ (
      ok tt,
      record l {
        inbox = rest;
        accepts = n;
        sent = build_message cmd_wrte here there (some bs) ∷ l.sent;
      },
    )
unfolding send_acked
send_acked-okay here there a b n bs e rest l ha hb i h = ground (
  arith,
  send_message-taken cmd_wrte here there n (some bs) l h,
  expect-build_message cmd_okay a b e rest
      (record l { accepts = n; sent = build_message cmd_wrte here there (some bs) ∷ l.sent })
      (omega arith) ha hb i,
)

pub push_chunks-sent :
    (here there a b m : ℕ) (cs : List Bytes) (rest : List (Option Bytes)) (l : Link)
    → a < u32_mod
    → b < u32_mod
    → l.inbox ≡ okays a b cs rest
    → l.accepts ≡ length cs + m
    → push_chunks here there cs l
      ≡ (ok tt, record l { inbox = rest; accepts = m; sent = pieces_sent here there cs l.sent })
unfolding push_chunks
push_chunks-sent here there a b m [] rest l ha hb i n =
    let all : l.accepts ≡ m = omega (arith, n) in
    λ j. (ok tt, record l { inbox = i j; accepts = all j })
push_chunks-sent here there a b m (c ∷ cs) rest l ha hb i n =
    let l1 : Link = record l {
      inbox = okays a b cs rest;
      accepts = length cs + m;
      sent = build_message cmd_wrte here there (some (packet id_data c)) ∷ l.sent;
    } in
    >>-eq-ok (send_acked here there (packet id_data c) AdbError.chunk_rejected)
      (push_chunks here there cs) l l1
      (send_acked-okay here there a b (length cs + m) (packet id_data c) AdbError.chunk_rejected
        (okays a b cs rest) l ha hb i (omega (arith, n)))
    ∙ push_chunks-sent here there a b m cs rest l1 ha hb refl refl

-- What the device takes from a stream up to DONE, the last message first.
abbrev pub push_sent : (ℕ → Bytes) → ℕ → ℕ → ℕ → Bytes → Bytes → ℕ → List Bytes → List Bytes
push_sent decimal now here there file path mode sent =
    build_message cmd_wrte here there (some (id_done ++ put_u32 (now / 1000)))
    ∷ pieces_sent here there (chunks file) (
        build_message cmd_wrte here there (some (packet id_send (path ++ (44 ∷ decimal mode))))
        ∷ sent)

module _ (is_fail : Bytes → Bool) (decimal : ℕ → Bytes) (now : ℕ) (file path : Bytes) (mode : ℕ)
    (here there a b m : ℕ) (rest : List (Option Bytes)) (l : Link) (ha : a < u32_mod)
    (hb : b < u32_mod) where
  abbrev okay : Option Bytes
  okay = some (build_message cmd_okay a b none)

  pub push_stream-to_verdict :
      l.inbox ≡ okay ∷ okays a b (chunks file) (okay ∷ rest)
      → l.accepts ≡ length (chunks file) + (m + 2)
      → push_stream is_fail decimal now file path mode here there l
        ≡ close_sync is_fail here there (record l {
          inbox = rest;
          accepts = m;
          sent = push_sent decimal now here there file path mode l.sent;
        })
  unfolding push_stream
  push_stream-to_verdict i n =
      let n_of = length (chunks file) in
      let pieces = okays a b (chunks file) (okay ∷ rest) in
      let name = packet id_send (path ++ (44 ∷ decimal mode)) in
      let done = id_done ++ put_u32 (now / 1000) in
      let l1 : Link = record l {
        inbox = pieces;
        accepts = n_of + (m + 1);
        sent = build_message cmd_wrte here there (some name) ∷ l.sent;
      } in
      let l2 : Link = record l {
        inbox = okay ∷ rest;
        accepts = m + 1;
        sent = pieces_sent here there (chunks file) l1.sent;
      } in
      let l3 : Link = record l {
        inbox = rest;
        accepts = m;
        sent = push_sent decimal now here there file path mode l.sent;
      } in
      let close = close_sync is_fail here there in
      let finish = send_acked here there done AdbError.done_rejected >> close in
      >>-eq-ok (send_acked here there name AdbError.send_rejected)
        (push_chunks here there (chunks file) >> finish) l l1
        (send_acked-okay here there a b (n_of + (m + 1)) name AdbError.send_rejected pieces l ha hb
          i (omega arith))
      ∙ >>-eq-ok (push_chunks here there (chunks file)) finish l1 l2
          (push_chunks-sent here there a b (m + 1) (chunks file) (okay ∷ rest) l1 ha hb refl refl)
      ∙ >>-eq-ok (send_acked here there done AdbError.done_rejected) close l2 l3 (
          send_acked-okay here there a b m done AdbError.done_rejected rest l2 ha hb refl
            (omega arith))

-- The stream that the device opens.
pub open_sync-okay :
    (a b n : ℕ) (rest : List (Option Bytes)) (l : Link)
    → a < u32_mod
    → b < u32_mod
    → l.inbox ≡ some (build_message cmd_okay a b none) ∷ rest
    → l.accepts ≡ suc n
    → open_sync l ≡ (
      ok (l.local_id + 1, a),
      record {
        inbox = rest;
        accepts = n;
        sent = build_message cmd_open (l.local_id + 1) 0 sync_request ∷ l.sent;
        local_id = l.local_id + 1;
      },
    )
unfolding open_sync next_local_id
open_sync-okay a b n rest l ha hb i h =
    let l0 : Link = record l { local_id = l.local_id + 1 } in
    ground (
      arith,
      send_message-taken cmd_open (l.local_id + 1) 0 n sync_request l0 h,
      expect-build_message cmd_okay a b AdbError.no_sync rest
          (record l0 {
            accepts = n;
            sent = build_message cmd_open (l.local_id + 1) 0 sync_request ∷ l.sent;
          })
          (omega arith) ha hb i,
    )

read_verdict-failed :
    (is_fail : Bytes → Bool) (here there : ℕ) (msg : AdbMessage) (l : Link)
    → msg.header.cmd ≡ cmd_wrte
    → is_fail msg.payload ≡ true
    → 8 ≤ length msg.payload
    → read_verdict is_fail here there msg l
      ≡ (err (AdbError.push_failed (take (get_u32 4 msg.payload) (drop 8 msg.payload))), l)
unfolding read_verdict
read_verdict-failed is_fail here there msg l c f n = ground arith

module _ (is_fail : Bytes → Bool) (here there a b : ℕ) (verdict : Bytes)
    (rest : List (Option Bytes)) (l : Link) (ha : a < u32_mod) (hb : b < u32_mod)
    (hv : Fits verdict)
    (i : l.inbox ≡ some (build_message cmd_wrte a b (some verdict)) ∷ rest) where
  pub close_sync-accepted :
      (m : ℕ)
      → is_fail verdict ≡ false
      → l.accepts ≡ suc (suc m)
      → close_sync is_fail here there l ≡ (
        ok tt,
        record l {
          inbox = rest;
          accepts = m;
          sent =
              build_message cmd_clse here there none
              ∷ build_message cmd_okay here there none
              ∷ l.sent;
        },
      )
  unfolding close_sync read_verdict
  close_sync-accepted m f n =
      let l1 : Link = record l { inbox = rest } in
      let l2 : Link = record l1 {
        accepts = suc m;
        sent = build_message cmd_okay here there none ∷ l.sent;
      } in
      ground (
        arith,
        recv_message-build_message cmd_wrte a b (some verdict) rest l (omega arith) ha hb hv i,
        send_message-taken cmd_okay here there (suc m) none l1 n,
        send_message-taken cmd_clse here there m none l2 refl,
      )

  pub close_sync-failed :
      is_fail verdict ≡ true
      → 8 ≤ length verdict
      → close_sync is_fail here there l ≡ (
        err (AdbError.push_failed (take (get_u32 4 verdict) (drop 8 verdict))),
        record l { inbox = rest },
      )
  unfolding close_sync read_verdict
  close_sync-failed f n =
      let msg : AdbMessage = record {
        header = record { cmd = cmd_wrte; arg0 = a; arg1 = b; data_len = length verdict };
        payload = verdict;
      } in
      let l1 : Link = record l { inbox = rest } in
      >>=-eq-ok recv_message
        (λ v. read_verdict is_fail here there v >> send_message cmd_clse here there none) l l1 msg
        (recv_message-build_message cmd_wrte a b (some verdict) rest l (omega arith) ha hb hv i)
      ∙ >>-eq-err (read_verdict is_fail here there msg) (send_message cmd_clse here there none) l1
          l1 (AdbError.push_failed (take (get_u32 4 verdict) (drop 8 verdict)))
          (read_verdict-failed is_fail here there msg l1 refl f n)
