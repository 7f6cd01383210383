-- ===== src/Adb/Client.antt =====
-- `ADBClient` of web/src/lib/adb.ts: the handshake, a shell command and a file transfer. Texts
-- are given as their UTF-8 bytes. What the code takes from the platform is a parameter: `decode`
-- of a `TextDecoder`, the decimal text of a number, and the clock.
use Prim.Native.String
use zte_u60_pro_mu5250_manag.Common.{
  ℕ, zero, suc, Bool, ◌&&◌, Option, none, some, List, [], ◌∷◌, ◌++◌, String, if◌then◌else◌, ◌==◌,
}
use zte_u60_pro_mu5250_manag.Adb.Wire.{
  Bytes, AdbMessage, cmd_cnxn, cmd_auth, cmd_open, cmd_okay, cmd_wrte, cmd_clse, auth_rsapublickey,
  version, max_data,
}
use zte_u60_pro_mu5250_manag.Adb.Link.{
  AdbError, Action, pure, throw, ◌>>=◌, ◌>>◌, next_local_id, send_message, recv_message, expect,
  waiting,
}

pub record Endpoint : Type 0 where
  pub is_in : Bool
  pub endpoint_number : ℕ

pub record Alternate : Type 0 where
  pub class_code : ℕ
  pub subclass_code : ℕ
  pub protocol_code : ℕ
  pub endpoints : List Endpoint

pub record Interface : Type 0 where
  pub interface_number : ℕ
  pub alternates : List Alternate

-- `this.epIn` and `this.epOut`, which a new client has as null.
pub record Pipes : Type 0 where
  pub ep_in : Option ℕ
  pub ep_out : Option ℕ

abbrev pub is_adb : Alternate → Bool
is_adb a = a.class_code == 0xff && (a.subclass_code == 0x42 && a.protocol_code == 0x01)

-- The endpoints of an alternate: the last one of each direction.
unfoldable pub take_endpoints : List Endpoint → Pipes → Pipes
take_endpoints [] p = p
take_endpoints (e ∷ es) p = take_endpoints es (
    if e.is_in
    then record p { ep_in = some e.endpoint_number }
    else record p { ep_out = some e.endpoint_number })

unfoldable pub find_alternate : List Alternate → Option Alternate
find_alternate [] = none
find_alternate (a ∷ rest) = if is_adb a then some a else find_alternate rest

-- The search for the first interface with an alternate of the three codes.
unfoldable pub find_interface : List Interface → Option (ℕ × Alternate)
unfolding find_alternate
find_interface [] = none
find_interface (i ∷ rest) = elim (find_alternate i.alternates) [
  | some a ↦ some (i.interface_number, a)
  | none ↦ find_interface rest
]

abbrev both : ℕ → Pipes → Option (ℕ × ℕ × ℕ)
both n p = elim p.ep_in [
  | none ↦ none
  | some i ↦ elim p.ep_out [ none ↦ none | some o ↦ some (n, i, o) ]
]

-- The interface and the two endpoints that a new client uses, none where one is missing.
unfoldable pub choose_pipes : List Interface → Option (ℕ × ℕ × ℕ)
unfolding find_interface take_endpoints
choose_pipes is = elim (find_interface is) [
  | none ↦ none
  | some (n, a) ↦ both n (take_endpoints a.endpoints (record { ep_in = none; ep_out = none }))
]

-- "host::\0" and "QAAAADummy==\0 unknown@host\0".
abbrev pub banner : Bytes
banner = 104 ∷ 111 ∷ 115 ∷ 116 ∷ 58 ∷ 58 ∷ 0 ∷ []

abbrev pub dummy_key : Bytes
dummy_key =
    81 ∷ 65 ∷ 65 ∷ 65 ∷ 65 ∷ 68 ∷ 117 ∷ 109 ∷ 109 ∷ 121 ∷ 61 ∷ 61 ∷ 0 ∷ 32 ∷ 117 ∷ 110 ∷ 107 ∷ 110
    ∷ 111 ∷ 119 ∷ 110 ∷ 64 ∷ 104 ∷ 111 ∷ 115 ∷ 116 ∷ 0 ∷ []

-- The second half of a handshake: one try with a key if the device asks for it.
unfoldable pub authenticate : AdbMessage → Action AdbMessage
unfolding send_message recv_message
authenticate response =
    if response.header.cmd == cmd_auth
    then send_message cmd_auth auth_rsapublickey 0 (some dummy_key) >> recv_message
    else pure response

-- `connectDevice`, from its choice of an interface on.
unfoldable pub connect_device : List Interface → Action (ℕ × ℕ × ℕ)
unfolding choose_pipes authenticate send_message recv_message
connect_device is = elim (choose_pipes is) [
  | none ↦ throw AdbError.no_interface
  | some pipes ↦ do
    send_message cmd_cnxn version max_data (some banner)
    first ← recv_message
    response ← authenticate first
    if response.header.cmd == cmd_cnxn then pure pipes else throw AdbError.no_handshake
]

-- "shell:", the command and a zero.
abbrev pub shell_request : Bytes → Bytes
shell_request command = (115 ∷ 104 ∷ 101 ∷ 108 ∷ 108 ∷ 58 ∷ []) ++ (command ++ (0 ∷ []))

module _ (decode : Bytes → String) where
  -- The loop of `shell`, `output` being the text so far; every pass takes a transfer.
  unfoldable pub shell_loop : ℕ → ℕ → ℕ → String → Action String
  unfolding recv_message send_message
  shell_loop zero here there output = throw AdbError.out_of_fuel
  shell_loop (suc n) here there output =
      let again = shell_loop n here there in
      recv_message >>= λ msg.
      if msg.header.cmd == cmd_wrte
      then (send_message cmd_okay here there none >>= λ _.
          again (String.◌++◌ output (decode msg.payload)))
      else if msg.header.cmd == cmd_clse
      then (send_message cmd_clse here there none >>= λ _. pure output)
      else again output

  -- The passes that `shell_loop` may make: no more than there are transfers and bytes in them.
  unfoldable pub shell_read : ℕ → ℕ → Action String
  unfolding shell_loop
  shell_read here there l = shell_loop (suc (waiting l.inbox)) here there "" l

  unfoldable pub shell : Bytes → Action String
  unfolding next_local_id send_message expect shell_read
  shell command = do
    here ← next_local_id
    send_message cmd_open here 0 (some (shell_request command))
    msg ← expect cmd_okay AdbError.no_shell
    shell_read here msg.header.arg0
