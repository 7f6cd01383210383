-- ===== src/Tests/SmsRuns.antt =====
-- Bodies of text messages (web/src/lib/sms.ts, web/src/app/(panel)/sms/compose/page.tsx).
use zte_u60_pro_mu5250_manag.Common.{◌≡◌, refl, true, some, [], ◌∷◌, arith}
use zte_u60_pro_mu5250_manag.Common.Texts.{Text, codes, trim}
use zte_u60_pro_mu5250_manag.Sms.Body.{
  to_ucs2_hex, clean_number, is_number, Asked, SmsSendRequest, ask_send, request_for,
  format_sms_date,
}
use zte_u60_pro_mu5250_manag.Sms.BodyRoundtrip.{ask_send_sound, Carries}

-- Two Chinese characters and a digit.
abbrev wide_text : Text
wide_text = 20320 ∷ 22909 ∷ 49 ∷ []

to_ucs2_hex_run : to_ucs2_hex wide_text ≡ codes "4f60597d0031"
unfolding to_ucs2_hex
to_ucs2_hex_run = refl

format_sms_date_run :
    format_sms_date (some (codes "26,05,9,10,56,56,+32")) ≡ codes "2026-05-09 10:56"
unfolding format_sms_date
format_sms_date_run = refl

abbrev sent : SmsSendRequest
sent = request_for (codes "+8613800138000") (codes "20260529105656") wide_text

sent_run :
    ask_send (codes " +86 138-0013-8000") (32 ∷ wide_text) (codes "20260529105656")
    ≡ Asked.asked sent
unfolding ask_send
sent_run = refl

ask_send_sound_example :
    Carries sent (trim (32 ∷ wide_text))
    × (is_number sent.number ≡ true)
    × (sent.number ≡ clean_number (codes " +86 138-0013-8000"))
unfolding trim
ask_send_sound_example =
    ask_send_sound (codes " +86 138-0013-8000") (32 ∷ wide_text) (codes "20260529105656") sent
      sent_run (omega arith, (omega arith, (omega arith, tt))) refl
