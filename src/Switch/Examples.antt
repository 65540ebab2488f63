-- ===== src/Switch/Examples.antt =====
-- Concrete inputs for the protocol's theorems.
mod Reports
mod Flash
mod Commands
use swbt_daemon.Common.{ℕ, [], ◌∷◌, none, some, true, get_or}
use swbt_daemon.Common.Buffer.{Buffer}
use swbt_daemon.Common.Int.{pos, negsuc}
use swbt_daemon.Switch.State.{ControllerState}
use swbt_daemon.Switch.Report.{ReportOptions}
use swbt_daemon.Switch.Subcommand.{OutputReport}
use swbt_daemon.Switch.Spi.{Spi}
use swbt_daemon.Switch.PlayerLights.{PlayerLights}
use swbt_daemon.Switch.Dispatcher.{Config, Response, no_action}

-- Y and home pressed, the left stick past its range, the pad tilted.
abbrev pub tilted : ControllerState
tilted = record {
  buttons = 0x1001;
  lx = 5000;
  ly = 17;
  rx = 2048;
  ry = 4095;
  accel_x = pos 100;
  accel_y = negsuc 0;
  accel_z = pos 4096;
  gyro_x = negsuc 299;
  gyro_y = pos 0;
  gyro_z = pos 32767;
}

abbrev pub options : ReportOptions
options = record { timer = 7; battery_connection = 0x8E; vibrator_report = 0x80 }

-- An array of zeros.
abbrev pub zeros : Buffer
zeros _ = 0

-- An array whose bytes are all 0xAB.
abbrev pub dirty : Buffer
dirty _ = 0xAB

abbrev pub erased : Spi
erased = record { bytes = λ _. 0xFF; default_value = 0xFF }

abbrev pub dark : PlayerLights
dark = record { raw = 0; on_mask = 0; flash_mask = 0; effective_flash_mask = 0; updated = true }

abbrev pub config : Config
config = record {
  state = some tilted;
  report_options = some options;
  spi = some erased;
  player_lights = some dark;
  device_info = none;
}

abbrev pub response : Response
response = record { action = no_action; report = zeros; report_size = 0 }

-- The host's request to read four bytes of flash at 0x6012.
abbrev pub flash_request : Buffer
flash_request i = get_or (0x12 ∷ 0x60 ∷ 0x00 ∷ 0x00 ∷ 0x04 ∷ []) i 0

abbrev pub command : ℕ → Buffer → ℕ → OutputReport
command n bytes len = record {
  output_report_id = 0x01;
  packet_counter = 3;
  rumble = zeros;
  has_subcommand = true;
  subcommand_id = n;
  subcommand_data = some bytes;
  subcommand_data_len = len;
}
