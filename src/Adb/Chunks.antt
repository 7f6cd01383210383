-- ===== src/Adb/Chunks.antt =====
-- `push` of web/src/lib/adb.ts: a file in pieces of 64 KiB, each acknowledged.
use zte_u60_pro_mu5250_manag.Common.{
  ℕ, zero, suc, ◌/◌, Bool, none, some, List, [], ◌∷◌, ◌++◌, if◌then◌else◌, ltb, ◌==◌, length, drop,
  take,
}
use zte_u60_pro_mu5250_manag.Adb.Wire.{
  Bytes, AdbMessage, put_u32, get_u32, cmd_open, cmd_okay, cmd_wrte, cmd_clse,
}
use zte_u60_pro_mu5250_manag.Adb.Link.{
  AdbError, Action, pure, throw, ◌>>=◌, ◌>>◌, next_local_id, send_message, recv_message, expect,
}

abbrev pub chunk_size : ℕ
chunk_size = 65536

-- The slices of the loop over `offset`, from the bytes that are left; `fuel` passes at most.
unfoldable pub chunks_from : ℕ → Bytes → List Bytes
chunks_from fuel [] = []
chunks_from zero (b ∷ bs) = []
chunks_from (suc fuel) (b ∷ bs) =
    take chunk_size (b ∷ bs) ∷ chunks_from fuel (drop chunk_size (b ∷ bs))

unfoldable pub chunks : Bytes → List Bytes
unfolding chunks_from
chunks file = chunks_from (length file) file

-- "SEND", "DATA" and "DONE".
abbrev pub id_send : Bytes
id_send = 83 ∷ 69 ∷ 78 ∷ 68 ∷ []

abbrev pub id_data : Bytes
id_data = 68 ∷ 65 ∷ 84 ∷ 65 ∷ []

abbrev pub id_done : Bytes
id_done = 68 ∷ 79 ∷ 78 ∷ 69 ∷ []

-- An id, the length of what follows, and what follows.
unfoldable pub packet : Bytes → Bytes → Bytes
unfolding put_u32
packet id bs = id ++ (put_u32 (length bs) ++ bs)

-- A WRTE message that has to be acknowledged.
unfoldable pub send_acked : ℕ → ℕ → Bytes → AdbError → Action Unit
unfolding send_message expect
send_acked here there bs e = do
  send_message cmd_wrte here there (some bs)
  expect cmd_okay e
  pure tt

unfoldable pub push_chunks : ℕ → ℕ → List Bytes → Action Unit
unfolding send_acked packet
push_chunks here there [] = pure tt
push_chunks here there (c ∷ cs) = do
  send_acked here there (packet id_data c) AdbError.chunk_rejected
  push_chunks here there cs

-- The answer to DONE; `is_fail` says whether its text starts with FAIL. The message of a failure
-- is read behind a length, which a shorter answer does not have.
unfoldable pub read_verdict : (Bytes → Bool) → ℕ → ℕ → AdbMessage → Action Unit
unfolding send_message get_u32
read_verdict is_fail here there msg =
    if msg.header.cmd == cmd_wrte
    then if is_fail msg.payload
      then if ltb (length msg.payload) 8
        then throw AdbError.out_of_bounds
        else throw (AdbError.push_failed (take (get_u32 4 msg.payload) (drop 8 msg.payload)))
      else send_message cmd_okay here there none
    else pure tt

-- The stream that a transfer runs on: this side's number and the device's.
unfoldable pub open_sync : Action (ℕ × ℕ)
unfolding next_local_id send_message expect
open_sync = do
  here ← next_local_id
  send_message cmd_open here 0 (some (115 ∷ 121 ∷ 110 ∷ 99 ∷ 58 ∷ 0 ∷ []))
  msg ← expect cmd_okay AdbError.no_sync
  pure (here, msg.header.arg0)

unfoldable pub close_sync : (Bytes → Bool) → ℕ → ℕ → Action Unit
unfolding recv_message read_verdict send_message
close_sync is_fail here there = do
  verdict ← recv_message
  read_verdict is_fail here there verdict
  send_message cmd_clse here there none

-- The transfer on an open stream, `now` being `Date.now()` as DONE is sent.
unfoldable pub push_stream :
    (Bytes → Bool) → (ℕ → Bytes) → ℕ → Bytes → Bytes → ℕ → ℕ → ℕ → Action Unit
unfolding send_acked packet chunks push_chunks put_u32 close_sync
push_stream is_fail decimal now file path mode here there = do
  send_acked here there (packet id_send (path ++ (44 ∷ decimal mode))) AdbError.send_rejected
  push_chunks here there (chunks file)
  send_acked here there (id_done ++ put_u32 (now / 1000)) AdbError.done_rejected
  close_sync is_fail here there

-- `push`.
unfoldable pub push : (Bytes → Bool) → (ℕ → Bytes) → ℕ → Bytes → Bytes → ℕ → Action Unit
unfolding open_sync push_stream
push is_fail decimal now file path mode =
    open_sync >>= λ s. push_stream is_fail decimal now file path mode s.0 s.1
