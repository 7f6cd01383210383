-- ===== src/Tests/AdbRuns.antt =====
-- Messages, a shell command and a file transfer (web/src/lib/adb.ts).
use zte_u60_pro_mu5250_manag.Common.{
  ℕ, ◌+◌, ◌≡◌, refl, Bool, false, ◌&&◌, ◌==◌, none, some, [], ◌∷◌, String, length, arith,
}
use zte_u60_pro_mu5250_manag.Adb.Wire.{Bytes, build_message, cmd_okay, cmd_wrte, cmd_open, cmd_clse}
use zte_u60_pro_mu5250_manag.Adb.Link.{Link, ok, recv_message}
use zte_u60_pro_mu5250_manag.Adb.Transfer.{recv_message-build_message}
use zte_u60_pro_mu5250_manag.Adb.Client.{shell, shell_request}
use zte_u60_pro_mu5250_manag.Adb.Chunks.{chunks, push}
use zte_u60_pro_mu5250_manag.Adb.Push.{push_sent, sync_request}
use zte_u60_pro_mu5250_manag.Adb.PushRun.{agreeing, push_delivers}
use zte_u60_pro_mu5250_manag.Adb.ShellOutput.{writes, replies, text_of}
use zte_u60_pro_mu5250_manag.Adb.ShellRun.{shell_collects}

abbrev one_message : Link
one_message = record {
  inbox = some (build_message cmd_wrte 5 1 (some (65 ∷ []))) ∷ [];
  accepts = 3;
  sent = [];
  local_id = 0;
}

recv_message-build_message_example : recv_message one_message ≡ (
  ok (record {
    header = record { cmd = cmd_wrte; arg0 = 5; arg1 = 1; data_len = 1 };
    payload = 65 ∷ [];
  }),
  record one_message { inbox = [] },
)
recv_message-build_message_example =
    recv_message-build_message cmd_wrte 5 1 (some (65 ∷ [])) [] one_message (omega arith)
      (omega arith) (omega arith) (omega arith) refl

abbrev small_file : Bytes
small_file = 1 ∷ 2 ∷ 3 ∷ []

abbrev say_a : Bytes → String
say_a bs = "a"

abbrev two_writes : Link
two_writes = record {
  inbox = some (build_message cmd_okay 5 1 none) ∷ writes 5 1 ((65 ∷ []) ∷ (66 ∷ []) ∷ []) [];
  accepts = 4;
  sent = [];
  local_id = 0;
}

shell_collects_example : shell say_a (108 ∷ 115 ∷ []) two_writes ≡ (
  ok (text_of say_a ((65 ∷ []) ∷ (66 ∷ []) ∷ []) ""),
  record {
    inbox = [];
    accepts = 0;
    sent =
        replies 1 5
          ((65 ∷ []) ∷ (66 ∷ []) ∷ [])
          (build_message cmd_open 1 0 (some (shell_request (108 ∷ 115 ∷ []))) ∷ []);
    local_id = 1;
  },
)
shell_collects_example =
    shell_collects say_a (108 ∷ 115 ∷ []) 5 1 0 ((65 ∷ []) ∷ (66 ∷ []) ∷ []) [] two_writes
      (omega arith) (omega arith) (omega arith, (omega arith, tt)) refl refl

-- Whether the bytes start with those of FAIL.
abbrev starts_with_fail : Bytes → Bool
starts_with_fail (a ∷ b ∷ c ∷ d ∷ bs) = (a == 70) && (b == 65) && (c == 73) && (d == 76)
starts_with_fail _ = false

abbrev decimal_33188 : ℕ → Bytes
decimal_33188 n = 51 ∷ 51 ∷ 49 ∷ 56 ∷ 56 ∷ []

abbrev accepted : Bytes
accepted = 79 ∷ 75 ∷ 65 ∷ 89 ∷ 0 ∷ 0 ∷ 0 ∷ 0 ∷ []

abbrev refused : Bytes
refused = 70 ∷ 65 ∷ 73 ∷ 76 ∷ 2 ∷ 0 ∷ 0 ∷ 0 ∷ 78 ∷ 79 ∷ []

abbrev answering : Bytes → ℕ → Link
answering verdict n = record {
  inbox = agreeing 5 1 small_file verdict [];
  accepts = n;
  sent = [];
  local_id = 0;
}

six_taken : (answering accepted 6).accepts ≡ length (chunks small_file) + (0 + 5)
unfolding chunks
six_taken = refl

four_taken : (answering refused 4).accepts ≡ length (chunks small_file) + (0 + 3)
unfolding chunks
four_taken = refl

push_delivers_example :
    push starts_with_fail decimal_33188 9000 small_file (47 ∷ 97 ∷ []) 33188 (answering accepted 6)
    ≡ (
      ok tt,
      record {
        inbox = [];
        accepts = 0;
        sent =
            build_message cmd_clse 1 5 none
            ∷ build_message cmd_okay 1 5 none
            ∷ push_sent decimal_33188 9000 1 5 small_file
                (47 ∷ 97 ∷ [])
                33188
                (build_message cmd_open 1 0 sync_request ∷ []);
        local_id = 1;
      },
    )
push_delivers_example =
    push_delivers starts_with_fail decimal_33188 9000 small_file (47 ∷ 97 ∷ []) 33188 5 1 0 accepted
      [] (answering accepted 6) (omega arith) (omega arith) (omega arith) refl six_taken refl
