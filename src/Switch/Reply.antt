-- ===== src/Switch/Reply.antt =====
-- The subcommand reply report 0x21: swbt/switch/switch_subcommand_reply.h and
-- switch_subcommand_reply.c, with that file's own copies of the stick helpers.
pub mod Layout
use swbt_daemon.Common.{
  ℕ, ◌+◌, ◌*◌, ◌/◌, ◌^◌, Bool, ◌&&◌, Option, none, some, bit_and, bit_or, ltb, if◌then◌else◌, u8,
  is_null,
}
use swbt_daemon.Common.Buffer.{Buffer, store, fill}
use swbt_daemon.Switch.State.{ControllerState}
use swbt_daemon.Switch.Report.{ReportOptions, Built}

abbrev pub reply_report_id : ℕ
reply_report_id = 0x21

abbrev pub reply_report_size : ℕ
reply_report_size = 50

abbrev pub ack_offset : ℕ
ack_offset = 13

abbrev pub subcommand_id_offset : ℕ
subcommand_id_offset = 14

abbrev pub data_offset : ℕ
data_offset = 15

abbrev pub max_data_size : ℕ
max_data_size = 35

-- The acknowledgement codes.
pub data Ack : Type 0 where
  simple device_info trigger_buttons_elapsed spi_read mcu_config player_lights : Ack

unfoldable pub ack_code : Ack → ℕ
ack_code simple = 0x80
ack_code device_info = 0x82
ack_code trigger_buttons_elapsed = 0x83
ack_code spi_read = 0x90
ack_code mcu_config = 0xA0
ack_code player_lights = 0xB0

-- `swbt_switch_subcommand_reply_result_t`.
pub data ReplyResult : Type 0 where
  ok invalid_argument buffer_too_small data_too_large : ReplyResult

-- `swbt_switch_subcommand_reply_t`.
pub record SubcommandReply : Type 0 where
  pub ack : ℕ
  pub subcommand_id : ℕ
  pub bytes : Option Buffer
  pub data_len : ℕ

unfoldable pub clamp_stick_12bit : ℕ → ℕ
clamp_stick_12bit value = if ltb 0x0FFF value then 0x0FFF else value

unfoldable pub zero_reply_report : Buffer → Buffer
zero_reply_report out = fill out 0 reply_report_size (λ _. 0)

unfoldable pub write_stick : Buffer → ℕ → ℕ → ℕ → Buffer
write_stick out off x y =
    let clamped_x = clamp_stick_12bit x in
    let clamped_y = clamp_stick_12bit y in
    let out0 = store out (off + 0) (u8 (bit_and clamped_x 0xFF)) in
    let out1 =
      store out0 (off + 1)
        (u8 (bit_or (bit_and (clamped_x / 2 ^ 8) 0x0F) (bit_and clamped_y 0x0F * 2 ^ 4))) in
    store out1 (off + 2) (u8 (bit_and (clamped_y / 2 ^ 4) 0xFF))

unfoldable pub write_standard_prefix : Buffer → ControllerState → ReportOptions → Buffer
unfolding write_stick clamp_stick_12bit
write_standard_prefix out s options =
    let out0 = store out 0 reply_report_id in
    let out1 = store out0 1 options.timer in
    let out2 = store out1 2 options.battery_connection in
    let out3 = store out2 3 (u8 (bit_and s.buttons 0xFF)) in
    let out4 = store out3 4 (u8 (bit_and (s.buttons / 2 ^ 8) 0xFF)) in
    let out5 = store out4 5 (u8 (bit_and (s.buttons / 2 ^ 16) 0xFF)) in
    let out6 = write_stick out5 6 s.lx s.ly in
    let out9 = write_stick out6 9 s.rx s.ry in store out9 12 options.vibrator_report

-- `data[index]` of a pointer; read only where the pointer is not NULL.
abbrev pub byte_at : Option Buffer → ℕ → ℕ
byte_at none i = 0
byte_at (some bytes) i = bytes i

-- What is written before the data, once the guards are passed.
unfoldable pub write_header : ControllerState → ReportOptions → SubcommandReply → Buffer → Buffer
unfolding zero_reply_report write_standard_prefix
write_header s options reply out =
    let prefix = write_standard_prefix (zero_reply_report out) s options in
    store (store prefix ack_offset reply.ack) subcommand_id_offset reply.subcommand_id

-- The whole report: the header, and the loop over the data.
unfoldable pub write_reply : ControllerState → ReportOptions → SubcommandReply → Buffer → Buffer
write_reply s options reply out =
    fill (write_header s options reply out) data_offset reply.data_len (byte_at reply.bytes)

-- The tests after those on `state`, `report_options` and `reply` themselves.
unfoldable pub build_into :
    ControllerState → ReportOptions → SubcommandReply → Buffer → ℕ → Built ReplyResult
unfolding write_reply
build_into s options reply out size =
    if ltb 0 reply.data_len && is_null reply.bytes
    then record { result = invalid_argument; out = some out; written = 0 }
    else if ltb max_data_size reply.data_len
    then record { result = data_too_large; out = some out; written = 0 }
    else if ltb size reply_report_size
    then record { result = buffer_too_small; out = some out; written = reply_report_size }
    else record {
      result = ok;
      out = some (write_reply s options reply out);
      written = reply_report_size;
    }

-- `swbt_switch_build_subcommand_reply`.
unfoldable pub build_subcommand_reply :
    Option ControllerState
    → Option ReportOptions
    → Option SubcommandReply
    → Option Buffer
    → ℕ
    → Built ReplyResult
unfolding build_into
build_subcommand_reply none options reply out size = record {
  result = invalid_argument;
  out = out;
  written = 0;
}
build_subcommand_reply (some s) none reply out size = record {
  result = invalid_argument;
  out = out;
  written = 0;
}
build_subcommand_reply (some s) (some options) none out size = record {
  result = invalid_argument;
  out = out;
  written = 0;
}
build_subcommand_reply (some s) (some options) (some reply) none size = record {
  result = invalid_argument;
  out = none;
  written = 0;
}
build_subcommand_reply (some s) (some options) (some reply) (some out) size =
    build_into s options reply out size
