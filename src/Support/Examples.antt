-- ===== src/Support/Examples.antt =====
-- The theorem on the report ticks at a concrete input.
use swbt_daemon.Common.{inl, true, refl, ◌≡◌, ◌⊎◌, arith}
use swbt_daemon.Support.Metrics.{
  Metrics, ok, invalid_argument, unavailable, sent, record_report_tick,
}
use swbt_daemon.Support.Metrics.Intervals.{IsConsistent, IsCounted, IsRefused, tick-IsConsistent}

-- After ticks at 1000, 9000 and 18000 microseconds, of which the second failed.
abbrev three_ticks : Metrics
three_ticks = record {
  snapshot = record {
    report_ticks = 3;
    report_send_ok = 2;
    report_send_failed = 1;
    report_interval_count = 2;
    report_interval_average_us = 8500;
    report_interval_max_us = 9000;
    ipc_state_accepted = 0;
    ipc_state_rejected = 0;
    ipc_state_coalesced = 0;
    hardware_status = unavailable;
    actual_report_rate_hz = 0;
    jitter_max_us = 0;
  };
  report_interval_total_us = 17000;
  last_report_tick_us = 18000;
  has_last_report_tick = true;
}

three_ticks-IsConsistent : IsConsistent three_ticks
three_ticks-IsConsistent = record {
  ticks_counted = refl;
  intervals_counted = refl;
  none_yet = inl refl;
  total_bounded = omega arith;
  total_by_max = omega arith;
  average_exact = refl;
}

tick-IsConsistent_example :
    let (result, m') = record_report_tick three_ticks 26001 sent in
    IsConsistent m'
    × ((IsRefused three_ticks 26001 sent × (result ≡ invalid_argument) × (m' ≡ three_ticks))
        ⊎ ((¬ IsRefused three_ticks 26001 sent)
            × (result ≡ ok)
            × IsCounted three_ticks 26001 sent m'))
tick-IsConsistent_example =
    tick-IsConsistent three_ticks 26001 sent three_ticks-IsConsistent (omega arith) (omega arith)
