-- ===== src/Switch/DeviceInfo.antt =====
-- The device information reply: swbt/switch/switch_device_info.h and switch_device_info.c.
use swbt_daemon.Common.{ℕ, Option, none, some, [], ◌∷◌, get_or}
use swbt_daemon.Common.Buffer.{Buffer, store, fill}

abbrev pub reply_data_size : ℕ
reply_data_size = 12

-- `swbt_switch_device_info_t`; the two arrays have 2 and 6 bytes.
pub record DeviceInfo : Type 0 where
  pub firmware_version : Buffer
  pub controller_type : ℕ
  pub bluetooth_address : Buffer
  pub tail_unknown : ℕ
  pub color_source : ℕ

-- `swbt_switch_device_info_swbt_pro`.
unfoldable pub swbt_pro : DeviceInfo
swbt_pro = record {
  firmware_version = λ i. get_or (0x04 ∷ 0x00 ∷ []) i 0;
  controller_type = 0x03;
  bluetooth_address = λ _. 0;
  tail_unknown = 0x01;
  color_source = 0x01;
}

-- `swbt_switch_device_info_write_reply_data`, on an array that is not NULL.
unfoldable pub write_reply_data : Option DeviceInfo → Buffer → Buffer
write_reply_data none out = out
write_reply_data (some info) out =
    let out0 = store out 0 (info.firmware_version 0) in
    let out1 = store out0 1 (info.firmware_version 1) in
    let out2 = store out1 2 info.controller_type in
    let out3 = store out2 3 0x02 in
    let out4 = fill out3 4 6 info.bluetooth_address in
    let out10 = store out4 10 info.tail_unknown in store out10 11 info.color_source
