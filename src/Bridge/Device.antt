-- ===== src/Bridge/Device.antt =====
-- The device: swbt/btstack_bridge/device.h and device.c. The port's calls are recorded, the latest
-- first, and what each answers is an argument of the operation that makes it; the port has all its
-- functions. Pointers to the device are not NULL.
pub mod Protocol
use swbt_daemon.Common.{
  ℕ, ◌-◌, ◌^◌, Bool, true, false, ◌||◌, not, Option, none, some, List, [], ◌∷◌, ltb, ◌==◌,
  if◌then◌else◌,
}
use swbt_daemon.Common.Buffer.{Buffer}
use swbt_daemon.Common.Int.{ℤ, pos, negsuc}
use swbt_daemon.Bridge.HidEvent
use swbt_daemon.Bridge.HidEvent.{EventCodes, EventResult, HidEvent}

-- `swbt_btstack_device_result_t`.
pub data DeviceResult : Type 0 where
  ok ignored invalid_argument closed open_failed connect_failed send_failed recv_failed :
      DeviceResult
  disconnect_failed : DeviceResult

-- `swbt_btstack_device_connect_request_t`; `address` is an array of 6 bytes.
pub record ConnectRequest : Type 0 where
  pub address : Buffer
  pub control_psm : ℕ
  pub interrupt_psm : ℕ

-- The calls of `swbt_btstack_device_port_t`, with what they answered.
pub data PortCall : Type 0 where
  platform_start : ℤ → PortCall
  platform_stop : PortCall
  hid_register : Buffer → ℕ → ℤ → PortCall
  hid_stop : PortCall
  connect_to : ConnectRequest → ℤ → PortCall
  disconnect_from : ℕ → ℤ → PortCall
  send_message : ℕ → Buffer → ℕ → ℤ → PortCall

-- `swbt_btstack_device_t`, and the calls of its port.
pub record Device : Type 0 where
  pub initialized : Bool
  pub platform_started : Bool
  pub hid_registered : Bool
  pub calls : List PortCall

-- The test of an answer against 0.
abbrev pub succeeds : ℤ → Bool
succeeds (pos n) = n == 0
succeeds (negsuc n) = false

abbrev pub called : PortCall → Device → Device
called call device = record device { calls = call ∷ device.calls }

-- `swbt_btstack_device_init` with a valid port.
abbrev pub init : Device
init = record { initialized = true; platform_started = false; hid_registered = false; calls = [] }

-- The part of `open` behind a platform that was started.
unfoldable pub register : Buffer → ℕ → ℤ → Device → DeviceResult × Device
register service_buffer service_buffer_size answer device =
    let asked = called (hid_register service_buffer service_buffer_size answer) device in
    if succeeds answer
    then (DeviceResult.ok, record asked { hid_registered = true })
    else if asked.platform_started
    then (open_failed, record (called platform_stop asked) { platform_started = false })
    else (open_failed, asked)

-- `swbt_btstack_device_open` with a registration, the options' service buffer and what
-- `platform_start` and `hid_register` answer.
unfoldable pub open_device : Device → Option Buffer → ℕ → ℤ → ℤ → DeviceResult × Device
unfolding register
open_device device none service_buffer_size start_answer register_answer =
    (invalid_argument, device)
open_device device (some service_buffer) service_buffer_size start_answer register_answer =
    if not device.initialized || service_buffer_size == 0
    then (invalid_argument, device)
    else if device.hid_registered
    then (DeviceResult.ok, device)
    else if device.platform_started
    then register service_buffer service_buffer_size register_answer device
    else if succeeds start_answer
    then register service_buffer service_buffer_size register_answer
        (record (called (platform_start start_answer) device) { platform_started = true })
    else (open_failed, called (platform_start start_answer) device)

-- The result of a call of the port.
abbrev pub result_of : ℤ → DeviceResult → DeviceResult
result_of answer failed = if succeeds answer then DeviceResult.ok else failed

-- `swbt_btstack_device_connect`; the channel is what the port writes.
unfoldable pub connect :
    Device → Option ConnectRequest → Option ℕ → ℤ → ℕ → DeviceResult × Device × Option ℕ
connect device none out_hid_cid answer hid_cid = (invalid_argument, device, out_hid_cid)
connect device (some request) none answer hid_cid = (invalid_argument, device, none)
connect device (some request) (some before) answer hid_cid =
    if not device.initialized
    then (invalid_argument, device, some before)
    else if not device.hid_registered
    then (closed, device, some before)
    else (result_of answer connect_failed, called (connect_to request answer) device, some hid_cid)

-- `swbt_btstack_device_disconnect`.
unfoldable pub disconnect : Device → ℕ → ℤ → DeviceResult × Device
disconnect device hid_cid answer =
    if not device.initialized
    then (invalid_argument, device)
    else if not device.hid_registered
    then (closed, device)
    else (result_of answer disconnect_failed, called (disconnect_from hid_cid answer) device)

-- `swbt_btstack_device_send`.
unfoldable pub send : Device → ℕ → Option Buffer → ℕ → ℤ → DeviceResult × Device
send device hid_cid none message_size answer = (invalid_argument, device)
send device hid_cid (some message) message_size answer =
    if not device.initialized || message_size == 0 || ltb (2 ^ 16 - 1) message_size
    then (invalid_argument, device)
    else if not device.hid_registered
    then (closed, device)
    else (
      result_of answer send_failed,
      called (send_message hid_cid message message_size answer) device,
    )

abbrev pub received : EventResult × Option HidEvent → DeviceResult × Option HidEvent
received (EventResult.ok, event) = (DeviceResult.ok, event)
received (EventResult.ignored, event) = (DeviceResult.ignored, event)
received (EventResult.invalid_argument, event) = (recv_failed, event)

-- `swbt_btstack_device_recv`, which leaves the device.
unfoldable pub recv :
    EventCodes → Device → ℕ → Option Buffer → ℕ → Option HidEvent → DeviceResult × Option HidEvent
recv codes device packet_type packet packet_size none = (invalid_argument, none)
recv codes device packet_type packet packet_size (some event) =
    if not device.initialized
    then (invalid_argument, some event)
    else if not device.hid_registered
    then (closed, some event)
    else received (HidEvent.decode codes packet_type packet packet_size (some event))

-- The two steps of `swbt_btstack_device_close`.
unfoldable pub stop_hid : Device → Device
stop_hid device =
    if device.hid_registered
    then record (called hid_stop device) { hid_registered = false }
    else device

unfoldable pub stop_platform : Device → Device
stop_platform device =
    if device.platform_started
    then record (called platform_stop device) { platform_started = false }
    else device

-- `swbt_btstack_device_close`.
unfoldable pub close : Device → Device
unfolding stop_hid stop_platform
close device = if not device.initialized then device else stop_platform (stop_hid device)

-- `swbt_btstack_device_is_open`.
abbrev pub is_open : Device → Bool
is_open device = device.hid_registered
