-- ===== src/Runtime/Examples.antt =====
-- The theorems on the life of a host at concrete inputs.
use swbt_daemon.Common.{◌≡◌, refl, true, false, none, [], ◌∷◌}
use swbt_daemon.Common.Int.{pos, negsuc}
use swbt_daemon.Switch.DeviceInfo.{swbt_pro}
use swbt_daemon.Runtime.{Host, start}
use swbt_daemon.Runtime.LifeCycle.{
  IsOrderly, steps-IsOrderly, do_steps, starts, stops, sends_neutral, hid_up, handler_up, timer_up,
}
use swbt_daemon.Runtime.Failure.{start_fails}

abbrev idle : Host
idle = record {
  app = none;
  next_direct_sequence = 0;
  report_options = record { timer = 0; battery_connection = 0x8E; vibrator_report = 0x80 };
  device_info = swbt_pro;
  initialized = true;
  running = false;
  hid_registered = false;
  output_handler_started = false;
  report_timer_started = false;
  calls = [];
}

idle-IsOrderly : IsOrderly idle
idle-IsOrderly = record {
  hid_flag = refl;
  handler_flag = refl;
  timer_flag = refl;
  hid_known = refl;
  handler_known = refl;
  timer_known = refl;
  initialized_first = refl;
  calls_allowed = refl;
}

steps-IsOrderly_example :
    IsOrderly (do_steps idle (starts (pos 0) (pos 0) ∷ sends_neutral (pos 1) ∷ stops ∷ []))
steps-IsOrderly_example =
    steps-IsOrderly idle (starts (pos 0) (pos 0) ∷ sends_neutral (pos 1) ∷ stops ∷ [])
      idle-IsOrderly

start_fails_example :
    ((start idle (pos 0) (negsuc 0)).1.running ≡ false)
    × (hid_up (start idle (pos 0) (negsuc 0)).1.calls ≡ false)
    × (handler_up (start idle (pos 0) (negsuc 0)).1.calls ≡ false)
    × (timer_up (start idle (pos 0) (negsuc 0)).1.calls ≡ false)
start_fails_example = start_fails idle (pos 0) (negsuc 0) idle-IsOrderly (unfold start in refl)
