-- ===== src/Switch/Examples/Reports.antt =====
-- The report theorems at concrete inputs.
use swbt_daemon.Common.{
  ◌+◌, ◌≤◌, ℕ, zero, suc, ◌<◌, ◌≡◌, refl, true, some, arith, [], ◌∷◌, length, get_or, List,
}
use swbt_daemon.Common.Buffer.{Buffer}
use swbt_daemon.Switch.State.{InRange}
use swbt_daemon.Switch.Report.{ok, build_standard_full_report, write_report}
use swbt_daemon.Switch.Report.Decode.{build-decode, decode_state, carried}
use swbt_daemon.Switch.Subcommand.{parse_bytes}
use swbt_daemon.Switch.Subcommand
use swbt_daemon.Switch.Subcommand.Parse.{
  parse-subcommand_packet, AreParsedAlike, parse_reads_within, subcommand_packet, bytes_of, byte_at,
}
use swbt_daemon.Switch.Reply.{SubcommandReply, build_subcommand_reply}
use swbt_daemon.Switch.Reply
use swbt_daemon.Switch.Reply.Layout.{IsWellFormed, build-reply_layout}
use swbt_daemon.Switch.Examples.{tilted, options, dirty, zeros, command}

tilted-InRange : InRange tilted
tilted-InRange = ground arith

build-decode_example :
    let b = build_standard_full_report (some tilted) (some options) (some dirty) 64 in
    (report : Buffer) × (b ≡ record { result = ok; out = some report; written = 49 })
    × (report 0 ≡ 0x30)
    × (record { timer = report 1; battery_connection = report 2; vibrator_report = report 12 }
        ≡ options)
    × (decode_state report 2 ≡ carried tilted)
    × (report 60 ≡ 0xAB)
build-decode_example =
    build-decode options dirty 64 2 60 tilted-InRange (omega arith) (omega arith) (omega arith)

-- A packet that sets the player lights.
abbrev rumble : List ℕ
rumble = 0x00 ∷ 0x01 ∷ 0x40 ∷ 0x40 ∷ 0x00 ∷ 0x01 ∷ 0x40 ∷ 0x40 ∷ []

abbrev packet : List ℕ
packet = subcommand_packet 5 rumble 0x30 (0x11 ∷ [])

abbrev old : Subcommand.OutputReport
old = command 0x99 dirty 77

parse-subcommand_packet_example :
    let (result, p) = parse_bytes (bytes_of packet) (length packet) old in
    (result ≡ Subcommand.ok)
    × (p.output_report_id ≡ 0x01)
    × (p.packet_counter ≡ 5)
    × (p.rumble 2 ≡ 0x40)
    × (p.has_subcommand ≡ true)
    × (p.subcommand_id ≡ 0x30)
    × (p.subcommand_data_len ≡ 1)
    × (byte_at p.subcommand_data 0 ≡ 0x11)
parse-subcommand_packet_example =
    parse-subcommand_packet 5 0x30 rumble (0x11 ∷ []) old 2 0 refl (omega arith) (omega arith)

-- The same packet with other bytes behind it.
abbrev followed : Buffer
followed i = get_or packet i 0xEE

same_packet : (k : ℕ) → k < 12 → bytes_of packet k ≡ followed k
same_packet k h = within packet k h
  where
    within : (xs : List ℕ) (k : ℕ) → k < length xs → get_or xs k 0 ≡ get_or xs k 0xEE
    within [] k h = absurd (omega arith)
    within (x ∷ xs) zero h = refl
    within (x ∷ xs) (suc k) h = within xs k (omega arith)

parse_reads_within_example :
    AreParsedAlike
      (parse_bytes (bytes_of packet) 12 old)
      (parse_bytes followed 12 (command 0 zeros 0))
parse_reads_within_example =
    parse_reads_within (bytes_of packet) followed 12 old (command 0 zeros 0) same_packet

abbrev reply : SubcommandReply
reply = record { ack = 0x90; subcommand_id = 0x10; bytes = some dirty; data_len = 9 }

reply-IsWellFormed : IsWellFormed reply
reply-IsWellFormed = record { fits = omega arith; present = refl }

build-reply_layout_example :
    let b = build_subcommand_reply (some tilted) (some options) (some reply) (some zeros) 50 in
    (report : Buffer) × (b ≡ record { result = Reply.ok; out = some report; written = 50 })
    × (report 0 ≡ 0x21)
    × ((j : ℕ) → 1 ≤ j → j < 13 → report j ≡ write_report tilted options zeros j)
    × (report 13 ≡ 0x90)
    × (report 14 ≡ 0x10)
    × ((i : ℕ) → i < 9 → report (15 + i) ≡ 0xAB)
    × ((k : ℕ) → 24 ≤ k → k < 50 → report k ≡ 0)
    × ((l : ℕ) → 50 ≤ l → report l ≡ 0)
build-reply_layout_example =
    build-reply_layout tilted options reply zeros 50 reply-IsWellFormed (omega arith)
