-- ===== src/Bridge/Examples.antt =====
-- The theorems on the bridge at concrete inputs.
use swbt_daemon.Common.{
  true, false, ◌+◌, ◌*◌, refl, ◌≤◌, ◌<◌, ◌≡◌, ◌≢◌, ◌⊎◌, none, some, List, [], ◌∷◌, ◌++◌, get_or,
  length, arith,
}
use swbt_daemon.Common.Buffer.{Buffer}
use swbt_daemon.Common.Int.{pos, negsuc}
use swbt_daemon.Common.Text.{Bytes, text}
use swbt_daemon.Bridge.ReplyQueue.{
  ReplyQueue, QueueItem, SendCallback, ok, empty, send_failed, enqueue, send_next,
}
use swbt_daemon.Bridge.ReplyQueue.Fifo.{IsValid, contents, enqueue_appends, send_next_fifo}
use swbt_daemon.Switch.State.{neutral}
use swbt_daemon.Switch.Report.{write_report}
use swbt_daemon.Bridge.Scheduler
use swbt_daemon.Bridge.Scheduler.{Scheduler, SendReport, tick}
use swbt_daemon.Bridge.Timer.{
  TimerAdapter, set_timer, now_us, delay_ms_until, scheduled_deadline_us,
}
use swbt_daemon.Bridge.Timer.Handlers.{on_timer, on_can_send_now}
use swbt_daemon.Bridge.Timer.Holdoff.{quiet_in_holdoff}
use swbt_daemon.Bridge.Timer.Neutral.{NeutralTurn, neutral_message, neutral_first}
use swbt_daemon.Bridge.Scheduler.Ticks.{call_of, tick_sends}
use swbt_daemon.Switch.Subcommand.{OutputReport}
use swbt_daemon.Bridge.HidEvent
use swbt_daemon.Bridge.HidEvent.{EventCodes, HidEvent, confirmation, decode}
use swbt_daemon.Bridge.HidEvent.Codec.{
  AreDistinct, PacketRest, packet_of, Carries, decode-packet_of,
}
use swbt_daemon.Bridge.OutputHandler.{OutputHandler, HandleOptions, handle}
use swbt_daemon.Bridge.OutputHandler.Rejoin.{DeliverAlike, whole, handle-rejoined}
use swbt_daemon.Bridge.AdapterLocation
use swbt_daemon.Bridge.AdapterLocation.Parse.{IsApplied, apply-parse}
use swbt_daemon.Bridge.Device
use swbt_daemon.Bridge.Device.Protocol.{
  Operation, opens, sends, closes, operate_all, state_of, replay, down, operate_all-replay,
}

abbrev blank : QueueItem
blank = record { hid_cid = 0; report = λ _. 0; report_size = 0 }

-- Three items wait, the first in the last place of the array.
abbrev waiting : ReplyQueue
waiting = record { items = λ _. blank; head = 3; count = 3 }

waiting-IsValid : IsValid waiting
waiting-IsValid = record { head_inside = omega arith; not_above = omega arith }

abbrev bytes : Buffer
bytes _ = 0xAB

enqueue_appends_example :
    let (result, queue') = enqueue waiting 0x41 (some bytes) 20 in
    (result ≡ ok)
    × IsValid queue'
    × (item : QueueItem) × (contents queue' ≡ contents waiting ++ (item ∷ []))
    × (item.hid_cid ≡ 0x41)
    × (item.report_size ≡ 20)
    × (item.report 20 ≡ 0)
enqueue_appends_example =
    enqueue_appends waiting 0x41 20 20 bytes waiting-IsValid (omega arith) (omega arith)
      (omega arith) (omega arith)

-- A stack that refuses every report.
abbrev refusing : SendCallback
refusing cid report size = negsuc 0

send_next_fifo_example :
    let (result, queue') = send_next waiting (some refusing) in
    IsValid queue'
    × (((result ≡ empty) × (contents waiting ≡ []) × (queue' ≡ waiting))
        ⊎ ((result ≡ ok) × (negsuc 0 ≡ pos 0) × (contents waiting ≡ blank ∷ contents queue'))
        ⊎ ((result ≡ send_failed)
            × (negsuc 0 ≢ pos 0)
            × (queue' ≡ waiting)
            × (contents waiting ≢ [])))
send_next_fifo_example = send_next_fifo waiting refusing waiting-IsValid

-- A schedule of 8 milliseconds that is due, with a stack that takes every report.
abbrev taking : SendReport
taking cid report size = pos 0

abbrev running : Scheduler
running = record {
  send_callback = some taking;
  report_period_us = 8000;
  report_options = record { timer = 0; battery_connection = 0x8E; vibrator_report = 0x80 };
  hid_cid = 0x41;
  running = true;
  next_deadline_us = 16000;
  timer = 255;
  scratch = λ _. 0;
  sent = [];
}

tick_sends_example :
    let report =
      write_report neutral (record (running.report_options) { timer = 255 }) running.scratch in
    let (result, s') = tick running 40000 (some neutral) in
    (((result ≡ Scheduler.ok) × (taking 0x41 report 49 ≡ pos 0) × (s'.timer ≡ 0))
      ⊎ ((result ≡ Scheduler.send_failed) × (taking 0x41 report 49 ≢ pos 0) × (s'.timer ≡ 255)))
    × (s'.scratch ≡ report)
    × (s'.sent ≡ call_of running report ∷ [])
    × (s'.running ≡ true)
    × (40000 < s'.next_deadline_us)
    × (s'.next_deadline_us ≤ 48000)
    × ((s'.next_deadline_us ≡ 24000) ⊎ ((24000 ≤ 40000) × (s'.next_deadline_us ≡ 48000)))
tick_sends_example =
    tick_sends running taking 40000 neutral refl (omega arith) refl (omega arith) (omega arith)

-- The loop of the running schedule; a reply was sent 50 milliseconds ago.
abbrev looping : TimerAdapter
looping = record {
  sender = taking;
  has_observer = true;
  scheduler = running;
  reply_queue = record { items = λ _. blank; head = 0; count = 0 };
  hid_cid = 0x41;
  initialized = true;
  running = true;
  timer_pending = true;
  can_send_pending = true;
  neutral_send_pending = false;
  periodic_holdoff_until_us = 290000;
  effects = [];
}

quiet_in_holdoff_example :
    let woken = (on_timer looping 40).1 in
    let turned = (on_can_send_now looping 40 neutral).1 in
    let delay = delay_ms_until (now_us 40) (scheduled_deadline_us looping) in
    (290000 ≤ 40000 + delay * 1000)
    × (woken.scheduler ≡ running)
    × (woken.reply_queue ≡ looping.reply_queue)
    × (woken.periodic_holdoff_until_us ≡ 290000)
    × (woken.effects ≡ set_timer delay ∷ [])
    × (woken.timer_pending ≡ true)
    × (((true ≡ false) × (turned ≡ looping))
        ⊎ ((true ≡ true) × (turned ≡ record woken { can_send_pending = false })))
quiet_in_holdoff_example =
    quiet_in_holdoff looping 40 neutral refl refl refl (omega arith) (omega arith) (omega arith)
      (omega arith)

-- The same loop with replies and a neutral report that wait.
abbrev hurried : TimerAdapter
hurried = record looping { reply_queue = waiting; neutral_send_pending = true }

neutral_first_example :
    NeutralTurn hurried 40
      (taking 0x41 (neutral_message hurried) 50)
      (on_can_send_now hurried 40 neutral)
neutral_first_example = neutral_first hurried 40 neutral refl refl

-- A device that is opened twice, sends a report and is closed; the first registration fails.
abbrev busy_device : List Operation
busy_device =
    opens (some bytes) 8 (pos 0) (negsuc 0)
    ∷ opens (some bytes) 8 (pos 0) (pos 0)
    ∷ sends 0x41 (some bytes) 50 (pos 0)
    ∷ closes
    ∷ opens (some bytes) 8 (pos 0) (pos 0)
    ∷ []

operate_all-replay_example :
    let device = operate_all Device.init busy_device in
    (replay device.calls ≡ some (state_of device))
    × (replay (Device.close device).calls ≡ some down)
    × ((Device.close device).hid_registered ≡ false)
operate_all-replay_example = operate_all-replay busy_device

-- The codes of the stack, and a request to confirm a pairing.
abbrev codes : EventCodes
codes = record {
  event_packet = 4;
  user_confirmation_request = 0x33;
  hid_meta = 0xEF;
  connection_opened = 2;
  connection_closed = 3;
  can_send_now = 4;
}

codes-AreDistinct : AreDistinct codes
codes-AreDistinct = record {
  meta_confirmation = ground arith;
  closed_opened = ground arith;
  sendable_opened = ground arith;
  sendable_closed = ground arith;
}

abbrev rest : PacketRest
rest = record {
  length_byte = 10;
  handle0 = 0x34;
  handle1 = 0x12;
  incoming = 1;
  value0 = 0xC4;
  value1 = 0xDC;
  value2 = 0x09;
  value3 = 0;
}

abbrev pairing : HidEvent
pairing = record { event_type = confirmation; hid_cid = 0; status = 0; address = λ i. 0xA0 + i }

decode-packet_of_example :
    let bytes = packet_of codes rest pairing confirmation in
    let (result, decoded) =
      decode codes 4 (some (λ i. get_or bytes i 0)) (length bytes) (some pairing) in
    (result ≡ HidEvent.ok)
    × (event' : HidEvent) × (decoded ≡ some event')
    × (event'.event_type ≡ confirmation)
    × Carries confirmation pairing event'
decode-packet_of_example =
    decode-packet_of codes rest pairing pairing codes-AreDistinct (omega arith) (λ e. cc)

-- A rumble report of nine bytes whose id comes apart.
abbrev listening : OutputHandler
listening = record { has_callback = true; scratch = λ _. 0 }

abbrev apart : HandleOptions
apart = record {
  hid_cid = 0x41;
  report_type = 2;
  report_id = 0x10;
  report = some bytes;
  report_size = 9;
}

abbrev no_report : OutputReport
no_report = record {
  output_report_id = 0;
  packet_counter = 0;
  rumble = λ _. 0;
  has_subcommand = false;
  subcommand_id = 0;
  subcommand_data = none;
  subcommand_data_len = 0;
}

handle-rejoined_example :
    let first = handle listening apart no_report in
    let joined = record apart {
      report_id = 0;
      report = some (whole 0x10 bytes);
      report_size = 10;
    } in
    let second = handle listening joined no_report in
    (first.result ≡ second.result) × DeliverAlike first.delivery second.delivery
handle-rejoined_example =
    handle-rejoined listening listening apart bytes no_report no_report (omega arith) (omega arith)
      (omega arith) refl

-- The location of an adapter on bus 3, behind the ports 1 and 4.
abbrev usb : Bytes
usb = text "libusb:3:1.4"

usb-ok : (AdapterLocation.parse (some usb) AdapterLocation.zero_location).0 ≡ AdapterLocation.ok
unfolding AdapterLocation.parse AdapterLocation.parse_text AdapterLocation.parse_libusb
    AdapterLocation.parse_u8 AdapterLocation.parse_path AdapterLocation.parse_ports
usb-ok = refl

apply-parse_example :
    IsApplied (λ path. negsuc 0) (AdapterLocation.parse (some usb) AdapterLocation.zero_location).1
apply-parse_example = apply-parse usb AdapterLocation.zero_location (λ path. negsuc 0) usb-ok
