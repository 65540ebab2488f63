-- ===== src/Support/Metrics.antt =====
-- The counters: swbt/support/metrics.h and metrics.c. All are 64-bit and wrap. The counters are
-- updated in place and are a value; the guards against a NULL pointer, which no caller passes, are
-- left out.
pub mod Intervals
use swbt_daemon.Common.{ℕ, ◌+◌, ◌-◌, ◌/◌, ◌^◌, Bool, true, false, ◌&&◌, ltb, if◌then◌else◌, u64}

-- `swbt_metrics_result_t`.
pub data MetricsResult : Type 0 where
  ok invalid_argument : MetricsResult

-- `swbt_metrics_report_send_result_t`, and any other number that the C type can hold.
pub data SendResult : Type 0 where
  sent send_failed other : SendResult

-- `swbt_metrics_hardware_status_t`.
pub data HardwareStatus : Type 0 where
  unavailable observed : HardwareStatus

-- `swbt_metrics_snapshot_t`.
pub record MetricsSnapshot : Type 0 where
  pub report_ticks : ℕ
  pub report_send_ok : ℕ
  pub report_send_failed : ℕ
  pub report_interval_count : ℕ
  pub report_interval_average_us : ℕ
  pub report_interval_max_us : ℕ
  pub ipc_state_accepted : ℕ
  pub ipc_state_rejected : ℕ
  pub ipc_state_coalesced : ℕ
  pub hardware_status : HardwareStatus
  pub actual_report_rate_hz : ℕ
  pub jitter_max_us : ℕ

-- `swbt_metrics_t`.
pub record Metrics : Type 0 where
  pub snapshot : MetricsSnapshot
  pub report_interval_total_us : ℕ
  pub last_report_tick_us : ℕ
  pub has_last_report_tick : Bool

-- `swbt_metrics_init`.
unfoldable pub init : Metrics
init = record {
  snapshot = record {
    report_ticks = 0;
    report_send_ok = 0;
    report_send_failed = 0;
    report_interval_count = 0;
    report_interval_average_us = 0;
    report_interval_max_us = 0;
    ipc_state_accepted = 0;
    ipc_state_rejected = 0;
    ipc_state_coalesced = 0;
    hardware_status = unavailable;
    actual_report_rate_hz = 0;
    jitter_max_us = 0;
  };
  report_interval_total_us = 0;
  last_report_tick_us = 0;
  has_last_report_tick = false;
}

-- `swbt_metrics_send_result_is_valid`.
unfoldable pub send_result_is_valid : SendResult → Bool
send_result_is_valid sent = true
send_result_is_valid send_failed = true
send_result_is_valid other = false

-- The tick and its send result are counted.
unfoldable pub count_send : SendResult → MetricsSnapshot → MetricsSnapshot
count_send sent s = record s {
  report_ticks = u64 (s.report_ticks + 1);
  report_send_ok = u64 (s.report_send_ok + 1);
}
count_send _ s = record s {
  report_ticks = u64 (s.report_ticks + 1);
  report_send_failed = u64 (s.report_send_failed + 1);
}

-- The interval since the last tick is counted.
unfoldable pub count_interval : Metrics → ℕ → Metrics
count_interval m now_us =
    let interval_us = now_us - m.last_report_tick_us in
    let count = u64 (m.snapshot.report_interval_count + 1) in
    let total = u64 (m.report_interval_total_us + interval_us) in
    record m {
      report_interval_total_us = total;
      snapshot = record (m.snapshot) {
        report_interval_count = count;
        report_interval_average_us = total / count;
        report_interval_max_us =
            if ltb m.snapshot.report_interval_max_us interval_us
            then interval_us
            else m.snapshot.report_interval_max_us;
      };
    }

-- `swbt_metrics_record_report_tick`. The interval is taken only when the tick is not earlier than
-- the last, so the subtraction does not wrap.
unfoldable pub record_report_tick : Metrics → ℕ → SendResult → MetricsResult × Metrics
unfolding send_result_is_valid count_send count_interval
record_report_tick m now_us send_result =
    if send_result_is_valid send_result
    then if m.has_last_report_tick && ltb now_us m.last_report_tick_us
      then (invalid_argument, m)
      else (let counted = record m { snapshot = count_send send_result m.snapshot } in
          let timed = if m.has_last_report_tick then count_interval counted now_us else counted in
          (ok, record timed { last_report_tick_us = now_us; has_last_report_tick = true }))
    else (invalid_argument, m)

-- `swbt_metrics_record_state_update_accepted`.
unfoldable pub record_state_update_accepted : Metrics → ℕ → Metrics
record_state_update_accepted m coalesced_updates = record m {
  snapshot = record (m.snapshot) {
    ipc_state_accepted = u64 (m.snapshot.ipc_state_accepted + 1);
    ipc_state_coalesced = u64 (m.snapshot.ipc_state_coalesced + coalesced_updates);
  };
}

-- `swbt_metrics_record_state_update_rejected`.
unfoldable pub record_state_update_rejected : Metrics → Metrics
record_state_update_rejected m = record m {
  snapshot = record (m.snapshot) { ipc_state_rejected = u64 (m.snapshot.ipc_state_rejected + 1) };
}
