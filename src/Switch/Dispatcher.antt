-- ===== src/Switch/Dispatcher.antt =====
-- The subcommand dispatcher: swbt/switch/switch_subcommand_dispatcher.h and
-- switch_subcommand_dispatcher.c. The configuration holds what its pointers point to, `none` for
-- NULL; a handler returns the player lights beside its result. A local array that the source leaves
-- uninitialised starts as zeros here; only bytes that were written are sent.
pub mod Answers
pub mod FlashRead
pub mod Lights
use swbt_daemon.Common.{
  ℕ, ◌+◌, ◌-◌, ◌*◌, ◌/◌, ◌^◌, ◌||◌, Bool, Option, none, some, bit_and, bit_or, ltb, ◌==◌,
  if◌then◌else◌, u8, is_null, List, [], ◌∷◌, get_or, true, false, not,
}
use swbt_daemon.Common.Buffer.{Buffer, store, fill}
use swbt_daemon.Switch.State.{ControllerState}
use swbt_daemon.Switch.Report.{ReportOptions, Built}
use swbt_daemon.Switch.Subcommand.{OutputReport, id}
use swbt_daemon.Switch.Subcommand
use swbt_daemon.Switch.Reply.{
  Ack, ack_code, ReplyResult, SubcommandReply, reply_report_size, build_subcommand_reply,
}
use swbt_daemon.Switch.Reply
use swbt_daemon.Switch.Spi.{Spi, ReadRequest, ReadOutcome, max_read_size}
use swbt_daemon.Switch.Spi
use swbt_daemon.Switch.PlayerLights.{PlayerLights}
use swbt_daemon.Switch.PlayerLights
use swbt_daemon.Switch.DeviceInfo.{DeviceInfo, write_reply_data}
use swbt_daemon.Switch.DeviceInfo

abbrev pub spi_read_request_size : ℕ
spi_read_request_size = 5

abbrev pub spi_read_reply_prefix_size : ℕ
spi_read_reply_prefix_size = 5

abbrev pub trigger_buttons_elapsed_reply_data_size : ℕ
trigger_buttons_elapsed_reply_data_size = 14

abbrev pub pairing_held_ticks : ℕ
pairing_held_ticks = 300

abbrev pub mcu_config_reply_data_size : ℕ
mcu_config_reply_data_size = 34

-- `swbt_switch_subcommand_dispatch_result_t`.
pub data DispatchResult : Type 0 where
  ok no_reply unsupported invalid_argument malformed_subcommand spi_read_failed : DispatchResult
  reply_build_failed player_lights_failed : DispatchResult

-- `swbt_switch_subcommand_dispatch_action_t`.
pub data Action : Type 0 where
  no_action reply : Action

-- `swbt_switch_subcommand_dispatcher_config_t`.
pub record Config : Type 0 where
  pub state : Option ControllerState
  pub report_options : Option ReportOptions
  pub spi : Option Spi
  pub player_lights : Option PlayerLights
  pub device_info : Option DeviceInfo

-- `swbt_switch_subcommand_dispatcher_response_t`; `report` is an array of 50 bytes.
pub record Response : Type 0 where
  pub action : Action
  pub report : Buffer
  pub report_size : ℕ

unfoldable pub reset_response : Response → Response
reset_response r = record {
  action = no_action;
  report = fill r.report 0 reply_report_size (λ _. 0);
  report_size = 0;
}

-- What a handler leaves.
abbrev pub Handled : Type 0
Handled = DispatchResult × Response

-- The report array after the builder's call.
abbrev pub written_into : Buffer → Option Buffer → Buffer
written_into before none = before
written_into before (some after) = after

unfoldable pub build_reply : Config → Response → ℕ → ℕ → Option Buffer → ℕ → Handled
unfolding reset_response
build_reply config response ack subcommand_id bytes data_len =
    let built =
      build_subcommand_reply config.state config.report_options
        (some
          (record { ack = ack; subcommand_id = subcommand_id; bytes = bytes; data_len = data_len }))
        (some response.report) reply_report_size in
    let report = written_into response.report built.out in
    elim built.result [
      | ReplyResult.ok ↦
          (ok, record { action = reply; report = report; report_size = built.written })
      | _ ↦ (reply_build_failed, reset_response (record response { report = report }))
    ]

unfoldable pub simple_ack : Config → OutputReport → Response → Handled
simple_ack config output response =
    build_reply config response (ack_code Ack.simple) output.subcommand_id none 0

unfoldable pub request_device_info : Config → OutputReport → Response → Handled
request_device_info config output response =
    if is_null config.device_info
    then (invalid_argument, response)
    else build_reply config response (ack_code Ack.device_info) output.subcommand_id
        (some (write_reply_data config.device_info (λ _. 0))) DeviceInfo.reply_data_size

unfoldable pub write_u16_le : Buffer → ℕ → ℕ → Buffer
write_u16_le bytes offset value =
    store (store bytes offset (u8 (bit_and value 0xFF))) (offset + 1)
      (u8 (bit_and (value / 2 ^ 8) 0xFF))

unfoldable pub trigger_buttons_elapsed : Config → OutputReport → Response → Handled
unfolding write_u16_le
trigger_buttons_elapsed config output response =
    let first = write_u16_le (λ _. 0) 0 pairing_held_ticks in
    build_reply config response (ack_code Ack.trigger_buttons_elapsed) output.subcommand_id
      (some (write_u16_le first 2 pairing_held_ticks)) trigger_buttons_elapsed_reply_data_size

-- The constant reply; the bytes from index 8 to 32 are 0.
abbrev pub mcu_config_bytes : Buffer
mcu_config_bytes i =
    if i == 33
    then 0xC8
    else get_or (0x01 ∷ 0x00 ∷ 0xFF ∷ 0x00 ∷ 0x08 ∷ 0x00 ∷ 0x1B ∷ 0x01 ∷ []) i 0

unfoldable pub set_mcu_config : Config → OutputReport → Response → Handled
set_mcu_config config output response =
    build_reply config response (ack_code Ack.mcu_config) output.subcommand_id
      (some mcu_config_bytes) mcu_config_reply_data_size

unfoldable pub read_u32_le : Buffer → ℕ
read_u32_le bytes =
    bit_or (bit_or (bit_or (bytes 0) (bytes 1 * 2 ^ 8)) (bytes 2 * 2 ^ 16)) (bytes 3 * 2 ^ 24)

-- The reply to a read. The flash was read into the local array `reply_data` from index 5 on, where
-- `tail` stood before.
unfoldable pub answer_read :
    Config → OutputReport → Response → Buffer → Buffer → ReadOutcome → Handled
answer_read config output response reply_data tail r = elim r.result [
  | Spi.SpiResult.ok ↦
      build_reply config response (ack_code Ack.spi_read) output.subcommand_id
        (some (λ i.
          if ltb i spi_read_reply_prefix_size
          then reply_data i
          else written_into tail r.out (i - spi_read_reply_prefix_size)))
        (spi_read_reply_prefix_size + r.written)
  | _ ↦ (spi_read_failed, response)
]

-- The read and the reply, for a request whose bytes are present.
unfoldable pub spi_read_request : Config → OutputReport → Response → Buffer → Handled
spi_read_request config output response bytes =
    let request : ReadRequest = record { address = read_u32_le bytes; size = bytes 4 } in
    let reply_data = fill (λ _. 0) 0 spi_read_request_size bytes in
    let tail = λ (i : ℕ). reply_data (spi_read_reply_prefix_size + i) in
    answer_read config output response reply_data tail
      (Spi.read config.spi request (some tail) max_read_size)

unfoldable pub spi_read : Config → OutputReport → Response → Handled
unfolding spi_read_request
spi_read config output response =
    if is_null config.spi then (invalid_argument, response) else elim output.subcommand_data [
      | none ↦ (malformed_subcommand, response)
      | some bytes ↦
          if ltb output.subcommand_data_len spi_read_request_size
          then (malformed_subcommand, response)
          else spi_read_request config output response bytes
    ]

-- The lights handlers also return the lights.
unfoldable pub set_player_lights : Config → OutputReport → Response → Handled × Option PlayerLights
unfolding simple_ack
set_player_lights config output response = elim config.player_lights [
  | none ↦ ((invalid_argument, response), none)
  | some lights ↦
      let (result, lights') =
        PlayerLights.apply_set lights output.subcommand_data output.subcommand_data_len in
      elim result [
        | PlayerLights.LightsResult.ok ↦ (
          simple_ack (record config { player_lights = some lights' }) output response,
          some lights',
        )
        | _ ↦ ((malformed_subcommand, response), some lights')
      ]
]

unfoldable pub get_player_lights : Config → OutputReport → Response → Handled
get_player_lights config output response =
    if is_null config.player_lights
    then (invalid_argument, response)
    else (let (result, bytes, len) =
          PlayerLights.get_reply_data config.player_lights (some (λ _. 0))
            PlayerLights.reply_data_size in
        elim result [
          | PlayerLights.LightsResult.ok ↦
              build_reply config response (ack_code Ack.player_lights) output.subcommand_id bytes
                len
          | _ ↦ (player_lights_failed, response)
        ])

-- The switch on the subcommand id.
unfoldable pub dispatch_by_id : Config → OutputReport → Response → Handled × Option PlayerLights
unfolding id
dispatch_by_id config output response =
    let n = output.subcommand_id in
    if n == id Subcommand.request_device_info
    then (request_device_info config output response, config.player_lights)
    else if n == id Subcommand.trigger_buttons_elapsed
    then (trigger_buttons_elapsed config output response, config.player_lights)
    else if n == id Subcommand.set_mcu_config
    then (set_mcu_config config output response, config.player_lights)
    else if n == id Subcommand.low_power_mode
        || n == id Subcommand.set_report_mode
        || n == id Subcommand.enable_imu
        || n == id Subcommand.enable_vibration
    then (simple_ack config output response, config.player_lights)
    else if n == id Subcommand.spi_flash_read
    then (spi_read config output response, config.player_lights)
    else if n == id Subcommand.set_player_lights
    then set_player_lights config output response
    else if n == id Subcommand.get_player_lights
    then (get_player_lights config output response, config.player_lights)
    else ((unsupported, response), config.player_lights)

-- The lights behind the pointers.
abbrev pub lights_of : Option Config → Option PlayerLights
lights_of none = none
lights_of (some config) = config.player_lights

-- The dispatcher for a response that is not NULL.
unfoldable pub dispatch_into :
    Option Config → Option OutputReport → Response → Handled × Option PlayerLights
dispatch_into none output clean = ((invalid_argument, clean), none)
dispatch_into (some config) none clean = ((invalid_argument, clean), config.player_lights)
dispatch_into (some config) (some output) clean =
    if is_null config.state || is_null config.report_options
    then ((invalid_argument, clean), config.player_lights)
    else if not output.has_subcommand
    then ((no_reply, clean), config.player_lights)
    else dispatch_by_id config output clean

-- `swbt_switch_subcommand_dispatch`.
unfoldable pub dispatch :
    Option Config
    → Option OutputReport
    → Option Response
    → DispatchResult × Option Response × Option PlayerLights
unfolding dispatch_into reset_response
dispatch config output none = (invalid_argument, none, lights_of config)
dispatch config output (some response) =
    let ((result, r), lights) = dispatch_into config output (reset_response response) in
    (result, some r, lights)
