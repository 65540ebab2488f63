-- ===== src/Switch/Subcommand.antt =====
-- Output reports from the host: swbt/switch/switch_subcommand.h and switch_subcommand.c.
-- A pointer to bytes is an option of the bytes behind it, `none` for NULL.
pub mod Parse
use swbt_daemon.Common.{
  ℕ, ◌+◌, ◌-◌, Bool, true, false, ◌||◌, Option, none, some, ltb, ◌==◌, if◌then◌else◌,
}
use swbt_daemon.Common.Buffer.{Buffer, fill}

-- The numbers of `swbt_switch_subcommand_id_t`.
pub data SubcommandId : Type 0 where
  state manual_bt_pairing request_device_info set_report_mode : SubcommandId
  trigger_buttons_elapsed get_page_list_state set_hci_state reset_pairing_info : SubcommandId
  low_power_mode spi_flash_read spi_flash_write reset_mcu set_mcu_config : SubcommandId
  set_mcu_state set_player_lights get_player_lights set_home_light enable_imu : SubcommandId
  set_imu_sensitivity write_imu_register read_imu_register enable_vibration : SubcommandId
  get_regulated_voltage : SubcommandId

unfoldable pub id : SubcommandId → ℕ
id state = 0x00
id manual_bt_pairing = 0x01
id request_device_info = 0x02
id set_report_mode = 0x03
id trigger_buttons_elapsed = 0x04
id get_page_list_state = 0x05
id set_hci_state = 0x06
id reset_pairing_info = 0x07
id low_power_mode = 0x08
id spi_flash_read = 0x10
id spi_flash_write = 0x11
id reset_mcu = 0x20
id set_mcu_config = 0x21
id set_mcu_state = 0x22
id set_player_lights = 0x30
id get_player_lights = 0x31
id set_home_light = 0x38
id enable_imu = 0x40
id set_imu_sensitivity = 0x41
id write_imu_register = 0x42
id read_imu_register = 0x43
id enable_vibration = 0x48
id get_regulated_voltage = 0x50

abbrev pub rumble_and_subcommand : ℕ
rumble_and_subcommand = 0x01

abbrev pub rumble_only : ℕ
rumble_only = 0x10

abbrev pub rumble_only_size : ℕ
rumble_only_size = 10

abbrev pub subcommand_header_size : ℕ
subcommand_header_size = 11

abbrev pub rumble_data_size : ℕ
rumble_data_size = 8

-- `swbt_switch_subcommand_result_t`.
pub data ParseResult : Type 0 where
  ok invalid_argument packet_too_short unsupported_report_id : ParseResult

-- `swbt_switch_output_report_t`; `rumble` is an array of 8 bytes.
pub record OutputReport : Type 0 where
  pub output_report_id : ℕ
  pub packet_counter : ℕ
  pub rumble : Buffer
  pub has_subcommand : Bool
  pub subcommand_id : ℕ
  pub subcommand_data : Option Buffer
  pub subcommand_data_len : ℕ

unfoldable pub reset_output_report : OutputReport → OutputReport
reset_output_report r = record {
  output_report_id = 0;
  packet_counter = 0;
  rumble = fill r.rumble 0 rumble_data_size (λ _. 0);
  has_subcommand = false;
  subcommand_id = 0;
  subcommand_data = none;
  subcommand_data_len = 0;
}

unfoldable pub copy_rumble : Buffer → OutputReport → OutputReport
copy_rumble bytes r = record r {
  rumble = fill r.rumble 0 rumble_data_size (λ index. bytes (2 + index));
}

unfoldable pub parse_rumble_only : Buffer → ℕ → OutputReport → ParseResult × OutputReport
unfolding copy_rumble
parse_rumble_only bytes len r =
    if ltb len rumble_only_size
    then (packet_too_short, r)
    else (ok, copy_rumble bytes (record r { packet_counter = bytes 1 }))

unfoldable pub parse_rumble_and_subcommand : Buffer → ℕ → OutputReport → ParseResult × OutputReport
unfolding copy_rumble
parse_rumble_and_subcommand bytes len r =
    if ltb len subcommand_header_size
    then (packet_too_short, r)
    else (let copied = copy_rumble bytes (record r { packet_counter = bytes 1 }) in
        let rest = len - subcommand_header_size in
        (
          ok,
          record copied {
            has_subcommand = true;
            subcommand_id = bytes 10;
            subcommand_data_len = rest;
            subcommand_data =
                if ltb 0 rest then some (λ i. bytes (subcommand_header_size + i)) else none;
          },
        ))

-- The switch on the first byte.
unfoldable pub parse_by_id : Buffer → ℕ → OutputReport → ParseResult × OutputReport
unfolding parse_rumble_only parse_rumble_and_subcommand
parse_by_id bytes len r =
    if bytes 0 == rumble_and_subcommand
    then parse_rumble_and_subcommand bytes len r
    else if bytes 0 == rumble_only
    then parse_rumble_only bytes len r
    else (unsupported_report_id, r)

-- The parser once the pointers are known not to be NULL.
unfoldable pub parse_bytes : Buffer → ℕ → OutputReport → ParseResult × OutputReport
unfolding reset_output_report parse_by_id
parse_bytes bytes len r =
    let clean = reset_output_report r in
    if ltb len 1
    then (packet_too_short, clean)
    else parse_by_id bytes len (record clean { output_report_id = bytes 0 })

-- `swbt_switch_parse_output_report`.
unfoldable pub parse_output_report :
    Option Buffer → ℕ → Option OutputReport → ParseResult × Option OutputReport
unfolding parse_bytes
parse_output_report bytes len none = (invalid_argument, none)
parse_output_report none len (some r) = (invalid_argument, some (reset_output_report r))
parse_output_report (some bytes) len (some r) =
    let (result, parsed) = parse_bytes bytes len r in (result, some parsed)

-- `swbt_switch_subcommand_is_known`.
unfoldable pub subcommand_is_known : ℕ → Bool
unfolding id
subcommand_is_known n =
    n == id state
    || n == id manual_bt_pairing
    || n == id request_device_info
    || n == id set_report_mode
    || n == id trigger_buttons_elapsed
    || n == id get_page_list_state
    || n == id set_hci_state
    || n == id reset_pairing_info
    || n == id low_power_mode
    || n == id spi_flash_read
    || n == id spi_flash_write
    || n == id reset_mcu
    || n == id set_mcu_config
    || n == id set_mcu_state
    || n == id set_player_lights
    || n == id get_player_lights
    || n == id set_home_light
    || n == id enable_imu
    || n == id set_imu_sensitivity
    || n == id write_imu_register
    || n == id read_imu_register
    || n == id enable_vibration
    || n == id get_regulated_voltage
