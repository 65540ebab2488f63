-- ===== src/Support/Metrics/Intervals.antt =====
-- The interval statistics of the report ticks.
use swbt_daemon.Common.{
  ℕ, ◌+◌, ◌-◌, ◌*◌, ◌/◌, ◌^◌, ◌≤◌, ◌<◌, ◌≡◌, ◌⊎◌, true, arith, ltb, Bool-cases, ltb→lt,
  if◌then◌else◌, inl, inr,
}
use swbt_daemon.Support.Metrics.{
  Metrics, ok, invalid_argument, SendResult, sent, send_failed, other, init, record_report_tick,
}

-- Every tick was sent or failed; between n + 1 ticks lie n intervals, whose total is at most the
-- time of the last tick and at most n times the longest, and whose average is the total by n.
pub record IsConsistent (m : Metrics) : Type 0 where
  pub ticks_counted :
      m.snapshot.report_ticks ≡ m.snapshot.report_send_ok + m.snapshot.report_send_failed
  pub intervals_counted :
      m.snapshot.report_ticks
      ≡ m.snapshot.report_interval_count + (if m.has_last_report_tick then 1 else 0)
  pub none_yet : (m.has_last_report_tick ≡ true) ⊎ (m.snapshot.report_interval_count ≡ 0)
  pub total_bounded : m.report_interval_total_us ≤ m.last_report_tick_us
  pub total_by_max :
      m.report_interval_total_us
      ≤ m.snapshot.report_interval_count * m.snapshot.report_interval_max_us
  pub average_exact :
      m.snapshot.report_interval_average_us
      ≡ m.report_interval_total_us / m.snapshot.report_interval_count

pub init-IsConsistent : IsConsistent init
unfolding init
init-IsConsistent = ground arith

abbrev pub longer : ℕ → ℕ → ℕ
longer longest d = if ltb longest d then d else longest

-- One more interval keeps the total below the count times the longest.
total_grows :
    (total count longest d : ℕ)
    → total ≤ count * longest
    → total + d ≤ (count + 1) * longer longest d
total_grows total count longest d h = elim (Bool-cases (ltb longest d)) [
  | inl y ↦ rw y (let p : longest < d = ltb→lt longest d y in grind arith)
  | inr n ↦ rw n (let p : d ≤ longest = ground arith in grind arith)
]

-- How many of one tick's sends ended in a way.
abbrev pub sent_count : SendResult → ℕ
sent_count sent = 1
sent_count _ = 0

abbrev pub failed_count : SendResult → ℕ
failed_count send_failed = 1
failed_count _ = 0

-- What an accepted tick adds to the counters, none of which wraps.
abbrev pub IsCounted : Metrics → ℕ → SendResult → Metrics → Type 0
IsCounted m now_us r m' =
    (m'.snapshot.report_ticks ≡ m.snapshot.report_ticks + 1)
    × (m'.snapshot.report_send_ok ≡ m.snapshot.report_send_ok + sent_count r)
    × (m'.snapshot.report_send_failed ≡ m.snapshot.report_send_failed + failed_count r)
    × (m'.snapshot.report_interval_count
        ≡ m.snapshot.report_interval_count + (if m.has_last_report_tick then 1 else 0))
    × (m'.report_interval_total_us
        ≡ m.report_interval_total_us
          + (if m.has_last_report_tick then now_us - m.last_report_tick_us else 0))
    × (m'.snapshot.report_interval_max_us ≡ (
        if m.has_last_report_tick
        then longer m.snapshot.report_interval_max_us (now_us - m.last_report_tick_us)
        else m.snapshot.report_interval_max_us))
    × (m'.last_report_tick_us ≡ now_us)
    × (m'.has_last_report_tick ≡ true)

-- A tick that is refused: its send result is none of the two, or it is earlier than the last one.
abbrev pub IsRefused : Metrics → ℕ → SendResult → Type 0
IsRefused m now_us r =
    (r ≡ other) ⊎ ((m.has_last_report_tick ≡ true) × (now_us < m.last_report_tick_us))

-- Below 2 ^ 64 ticks and microseconds a tick is refused and changes nothing, which it is where its
-- send result is none of the two or where it is earlier than the last one, or else it is accepted;
-- then it is counted once, as sent or as failed by its result, and, behind an earlier one, as one
-- interval whose exact length is added to the total and enters the longest: no counter wraps.
-- Either way the statistics stay consistent.
pub tick-IsConsistent :
    (m : Metrics) (now_us : ℕ) (r : SendResult)
    → IsConsistent m
    → now_us < 2 ^ 64
    → m.snapshot.report_ticks + 1 < 2 ^ 64
    → let (result, m') = record_report_tick m now_us r in
      IsConsistent m'
      × ((IsRefused m now_us r × (result ≡ invalid_argument) × (m' ≡ m))
          ⊎ ((¬ IsRefused m now_us r) × (result ≡ ok) × IsCounted m now_us r m'))
unfolding record_report_tick
tick-IsConsistent m now_us r v h k = (
  ground (
    arith,
    total_grows m.report_interval_total_us m.snapshot.report_interval_count
        m.snapshot.report_interval_max_us (now_us - m.last_report_tick_us) v.total_by_max,
  ),
  ground arith,
)
