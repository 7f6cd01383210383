-- ===== src/Adb/Link.antt =====
-- The transfers of web/src/lib/adb.ts. The device is not part of the repository: `inbox` is what
-- it sends in turn (`none` where it sends nothing in time, and after the last transfer it sends
-- nothing any more). `transferIn` asks for 64 KiB: of a longer transfer it takes the first 64 KiB,
-- and the rest is what the next one gets.
-- `accepts` says how many messages it will still take before one times out or is
-- refused, and `sent` is what it took, the last message first.
use zte_u60_pro_mu5250_manag.Common.{
  ℕ, zero, suc, ◌+◌, Option, none, some, List, [], ◌∷◌, if◌then◌else◌, ltb, ◌==◌, length, take,
  drop,
}
use zte_u60_pro_mu5250_manag.Adb.Wire.{Bytes, AdbHeader, AdbMessage, build_message, parse_message}

pub data AdbError : Type 0 where
  timed_out not_parsed no_interface no_handshake no_shell no_sync out_of_fuel out_of_bounds :
      AdbError
  send_rejected chunk_rejected done_rejected : AdbError
  push_failed : Bytes → AdbError

pub record Link : Type 0 where
  pub inbox : List (Option Bytes)
  pub accepts : ℕ
  pub sent : List Bytes
  pub local_id : ℕ

pub data Result (A : Type 0) : Type 0 where
  ok : A → Result A
  err : AdbError → Result A

-- An `async` method: it ends with a value or throws, and the transfers made stay made.
abbrev pub Action : Type 0 → Type 0
Action A = Link → Result A × Link

abbrev pub pure : {A : Type 0} → A → Action A
pure a l = (ok a, l)

abbrev pub throw : {A : Type 0} → AdbError → Action A
throw e l = (err e, l)

infixl 5 ◌>>=◌ ◌>>◌
abbrev pub ◌>>=◌ : {A B : Type 0} → Action A → (A → Action B) → Action B
◌>>=◌ m f l = let (r, l') = m l in elim r [ ok a ↦ f a l' | err e ↦ (err e, l') ]

abbrev pub ◌>>◌ : {A B : Type 0} → Action A → Action B → Action B
m >> k = m >>= λ _. k

-- `++this.localIdCounter`.
unfoldable pub next_local_id : Action ℕ
next_local_id l = (ok (l.local_id + 1), record l { local_id = l.local_id + 1 })

abbrev transfer_out : ℕ → Bytes → Action Unit
transfer_out zero bs l = (err AdbError.timed_out, l)
transfer_out (suc n) bs l = (ok tt, record l { accepts = n; sent = bs ∷ l.sent })

unfoldable pub send : Bytes → Action Unit
send bs l = transfer_out l.accepts bs l

-- `64 * 1024`, in `recv`.
abbrev pub transfer_limit : ℕ
transfer_limit = 65536

-- What a transfer of at most `limit` bytes hands over of what the device sends in one.
unfoldable pub taken_of : ℕ → Bytes → Bytes
taken_of limit bs = if ltb limit (length bs) then take limit bs else bs

-- What is left then of it, and what follows.
unfoldable pub left_of : ℕ → Bytes → List (Option Bytes) → List (Option Bytes)
left_of limit bs rest = if ltb limit (length bs) then some (drop limit bs) ∷ rest else rest

abbrev transfer_in : List (Option Bytes) → Action Bytes
transfer_in [] l = (err AdbError.timed_out, l)
transfer_in (none ∷ rest) l = (err AdbError.timed_out, record l { inbox = rest })
transfer_in (some bs ∷ rest) l =
    (ok (taken_of transfer_limit bs), record l { inbox = left_of transfer_limit bs rest })

-- How much the device will still send: its transfers and the bytes in them.
abbrev pub waiting : List (Option Bytes) → ℕ
waiting [] = 0
waiting (none ∷ rest) = suc (waiting rest)
waiting (some bs ∷ rest) = suc (length bs + waiting rest)

unfoldable pub recv : Action Bytes
unfolding taken_of left_of
recv l = transfer_in l.inbox l

unfoldable pub send_message : ℕ → ℕ → ℕ → Option Bytes → Action Unit
unfolding send build_message
send_message cmd arg0 arg1 bytes = send (build_message cmd arg0 arg1 bytes)

-- The payload: what follows the header in its transfer, else a transfer of its own.
unfoldable pub recv_payload : Bytes → AdbHeader → Action Bytes
unfolding recv
recv_payload buffer h =
    if ltb 24 (length buffer)
    then pure (drop 24 buffer)
    else if ltb 0 h.data_len
    then recv
    else pure []

unfoldable pub recv_parsed : Bytes → Option AdbHeader → Action AdbMessage
unfolding recv_payload
recv_parsed buffer none = throw AdbError.not_parsed
recv_parsed buffer (some h) =
    recv_payload buffer h >>= λ bs. pure (record { header = h; payload = bs })

unfoldable pub recv_message : Action AdbMessage
unfolding recv recv_parsed
recv_message = do buffer ← recv; recv_parsed buffer (parse_message buffer)

-- An answer that has to have the command `cmd`.
unfoldable pub expect : ℕ → AdbError → Action AdbMessage
unfolding recv_message
expect cmd e = do msg ← recv_message; if msg.header.cmd == cmd then pure msg else throw e
