-- ===== src/Bridge/Device/Protocol.antt =====
-- The order in which the device calls its port: swbt/btstack_bridge/device.c.
use swbt_daemon.Common.{
  ℕ, ◌-◌, ◌^◌, ◌≡◌, refl, Bool, true, false, ◌||◌, not, if_known, Option, none, some, List, [], ◌∷◌,
  ltb, ◌==◌, if◌then◌else◌, arith,
}
use swbt_daemon.Common.Buffer.{Buffer}
use swbt_daemon.Common.Int.{ℤ}
use swbt_daemon.Bridge.Device.{
  DeviceResult, ConnectRequest, PortCall, platform_start, platform_stop, hid_register, hid_stop,
  connect_to, disconnect_from, send_message, Device, succeeds, called, init, register, open_device,
  connect, disconnect, send, stop_hid, stop_platform, close,
}

-- What the port is in: nothing runs, the platform does, or the service is registered as well.
pub data PortState : Type 0 where
  down started registered : PortState

-- What a port takes in a state, and the state after it; `none` where the call is out of order.
abbrev pub take_call : PortState → PortCall → Option PortState
take_call down (platform_start answer) = some (if succeeds answer then started else down)
take_call started (hid_register service_buffer size answer) =
    some (if succeeds answer then registered else started)
take_call started platform_stop = some down
take_call registered (connect_to request answer) = some registered
take_call registered (disconnect_from hid_cid answer) = some registered
take_call registered (send_message hid_cid message size answer) = some registered
take_call registered hid_stop = some started
take_call state call = none

abbrev pub take_after : Option PortState → PortCall → Option PortState
take_after none call = none
take_after (some state) call = take_call state call

-- The state after the calls, the latest first.
abbrev pub replay : List PortCall → Option PortState
replay [] = some down
replay (call ∷ earlier) = take_after (replay earlier) call

-- An operation of the device, with what the port answers.
pub data Operation : Type 0 where
  opens : Option Buffer → ℕ → ℤ → ℤ → Operation
  connects : Option ConnectRequest → Option ℕ → ℤ → ℕ → Operation
  disconnects : ℕ → ℤ → Operation
  sends : ℕ → Option Buffer → ℕ → ℤ → Operation
  closes : Operation

abbrev pub operate : Device → Operation → Device
operate device (opens buffer size start_answer register_answer) =
    (open_device device buffer size start_answer register_answer).1
operate device (connects request out answer hid_cid) = (connect device request out answer hid_cid).1
operate device (disconnects hid_cid answer) = (disconnect device hid_cid answer).1
operate device (sends hid_cid message size answer) = (send device hid_cid message size answer).1
operate device closes = close device

abbrev pub operate_all : Device → List Operation → Device
operate_all device [] = device
operate_all device (o ∷ later) = operate_all (operate device o) later

abbrev pub state_of : Device → PortState
state_of device = if device.hid_registered then registered else down

-- The flags agree with the calls of the port.
pub record IsOrderly (device : Device) : Type 0 where
  pub ready : device.initialized ≡ true
  pub flags : device.platform_started ≡ device.hid_registered
  pub replayed : replay device.calls ≡ some (state_of device)

register-IsOrderly :
    (device : Device) (buffer : Buffer) (size : ℕ) (answer : ℤ)
    → device.initialized ≡ true
    → device.platform_started ≡ true
    → device.hid_registered ≡ false
    → replay device.calls ≡ some started
    → IsOrderly (register buffer size answer device).1
unfolding register
register-IsOrderly device buffer size answer i p h r = by_answer (succeeds answer) refl
  where
    by_answer :
        (success : Bool)
        → succeeds answer ≡ success
        → IsOrderly (register buffer size answer device).1
    by_answer true e = record {
      ready = ground arith;
      flags = ground arith;
      replayed = ground arith;
    }
    by_answer false e = record {
      ready = ground arith;
      flags = ground arith;
      replayed = ground arith;
    }

open_device-IsOrderly :
    (device : Device) (buffer : Buffer) (size : ℕ) (start_answer register_answer : ℤ)
    → IsOrderly device
    → IsOrderly (open_device device (some buffer) size start_answer register_answer).1
unfolding open_device
open_device-IsOrderly device buffer size start_answer register_answer d =
    let Q = λ (r : DeviceResult × Device). IsOrderly r.1 in
    if_known Q (not device.initialized || size == 0) (λ _. d)
      (λ _.
        if_known Q device.hid_registered (λ _. d)
          (λ h.
            if_known Q device.platform_started (λ p. cc)
              (λ p.
                if_known Q (succeeds start_answer)
                  (λ e.
                    register-IsOrderly
                      (record (called (platform_start start_answer) device) {
                        platform_started = true;
                      })
                      buffer size register_answer d.ready refl h (ground arith))
                  (λ e. record { ready = d.ready; flags = d.flags; replayed = ground arith }))))

connect-IsOrderly :
    (device : Device) (request : Option ConnectRequest) (out : Option ℕ) (answer : ℤ) (hid_cid : ℕ)
    → IsOrderly device
    → IsOrderly (connect device request out answer hid_cid).1
unfolding connect
connect-IsOrderly device none out answer hid_cid d = d
connect-IsOrderly device (some request) none answer hid_cid d = d
connect-IsOrderly device (some request) (some before) answer hid_cid d =
    let Q = λ (r : DeviceResult × Device × Option ℕ). IsOrderly r.1 in
    if_known Q (not device.initialized) (λ _. d)
      (λ _.
        if_known Q (not device.hid_registered) (λ _. d)
          (λ h. record { ready = d.ready; flags = d.flags; replayed = ground arith }))

disconnect-IsOrderly :
    (device : Device) (hid_cid : ℕ) (answer : ℤ)
    → IsOrderly device
    → IsOrderly (disconnect device hid_cid answer).1
unfolding disconnect
disconnect-IsOrderly device hid_cid answer d =
    let Q = λ (r : DeviceResult × Device). IsOrderly r.1 in
    if_known Q (not device.initialized) (λ _. d)
      (λ _.
        if_known Q (not device.hid_registered) (λ _. d)
          (λ h. record { ready = d.ready; flags = d.flags; replayed = ground arith }))

send-IsOrderly :
    (device : Device) (hid_cid : ℕ) (message : Option Buffer) (size : ℕ) (answer : ℤ)
    → IsOrderly device
    → IsOrderly (send device hid_cid message size answer).1
unfolding send
send-IsOrderly device hid_cid none size answer d = d
send-IsOrderly device hid_cid (some message) size answer d =
    let Q = λ (r : DeviceResult × Device). IsOrderly r.1 in
    if_known Q (not device.initialized || size == 0 || ltb (2 ^ 16 - 1) size) (λ _. d)
      (λ _.
        if_known Q (not device.hid_registered) (λ _. d)
          (λ h. record { ready = d.ready; flags = d.flags; replayed = ground arith }))

close-IsOrderly : (device : Device) → IsOrderly device → IsOrderly (close device)
unfolding close stop_hid stop_platform
close-IsOrderly device d = record {
  ready = ground arith;
  flags = ground arith;
  replayed = ground arith;
}

operate-IsOrderly :
    (device : Device) (o : Operation) → IsOrderly device → IsOrderly (operate device o)
unfolding open_device
operate-IsOrderly device (opens none size start_answer register_answer) d = d
operate-IsOrderly device (opens (some buffer) size start_answer register_answer) d =
    open_device-IsOrderly device buffer size start_answer register_answer d
operate-IsOrderly device (connects request out answer hid_cid) d =
    connect-IsOrderly device request out answer hid_cid d
operate-IsOrderly device (disconnects hid_cid answer) d =
    disconnect-IsOrderly device hid_cid answer d
operate-IsOrderly device (sends hid_cid message size answer) d =
    send-IsOrderly device hid_cid message size answer d
operate-IsOrderly device closes d = close-IsOrderly device d

operate_all-IsOrderly :
    (device : Device) (todo : List Operation)
    → IsOrderly device
    → IsOrderly (operate_all device todo)
operate_all-IsOrderly device [] d = d
operate_all-IsOrderly device (o ∷ later) d =
    operate_all-IsOrderly (operate device o) later (operate-IsOrderly device o d)

init-IsOrderly : IsOrderly init
init-IsOrderly = record { ready = refl; flags = refl; replayed = refl }

close-down :
    (device : Device)
    → IsOrderly device
    → (replay (close device).calls ≡ some down) × ((close device).hid_registered ≡ false)
unfolding close stop_hid stop_platform
close-down device d = (ground arith, ground arith)

-- Whatever operations a device performs after `init`, in any order, and whatever its port answers,
-- the port's functions are called in order: the platform is started before the service is
-- registered, connections and reports go to a registered service alone, and both are stopped once,
-- the service first. The device is open exactly while the service is registered, and `close` leaves
-- a port on which nothing runs.
pub operate_all-replay :
    (todo : List Operation)
    → let device = operate_all init todo in
      (replay device.calls ≡ some (state_of device))
      × (replay (close device).calls ≡ some down)
      × ((close device).hid_registered ≡ false)
operate_all-replay todo =
    let d = operate_all-IsOrderly init todo init-IsOrderly in
    (d.replayed, (close-down (operate_all init todo) d).0, (close-down (operate_all init todo) d).1)
