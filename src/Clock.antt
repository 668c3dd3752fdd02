-- ===== src/Clock.antt =====
-- Deadlines and select() budgets: `deadline_from_ms` of
-- packages/dart_db_connector/native/c/src/native_pool.c, and `compute_deadline`, `ms_until` and
-- `next_select_tv` of native_pool_worker.c. The clock's reading is an argument.
pub mod Bounds
use dart_db_connector.Base.{
  ℕ, ◌+◌, ◌-◌, ◌*◌, ◌/◌, ◌%◌, ℤ, pos, negsuc, pos_part, neg_part, sub_ℕ, is_positive, Option, none,
  some, if◌then◌else◌, leb, ltb,
}

-- `struct timespec`, seconds and nanoseconds.
pub record Timespec : Type 0 where
  pub sec : ℕ
  pub nsec : ℕ

-- `struct timeval`, seconds and microseconds.
pub record Timeval : Type 0 where
  pub sec : ℕ
  pub usec : ℕ

abbrev pub ns_per_sec : ℕ
ns_per_sec = 1_000_000_000

-- `if (ts->tv_nsec >= 1000000000L) { tv_sec += 1; tv_nsec -= 1000000000L; }`
abbrev carry : Timespec → Timespec
carry t =
    if leb ns_per_sec t.nsec then record { sec = t.sec + 1; nsec = t.nsec - ns_per_sec } else t

-- The callers pass a positive `delta_ms`.
unfoldable pub deadline_from_ms : Timespec → ℕ → Timespec
deadline_from_ms now delta_ms =
    carry
      (record { sec = now.sec + delta_ms / 1000; nsec = now.nsec + delta_ms % 1000 * 1_000_000 })

unfoldable pub compute_deadline : Timespec → ℕ → Timespec
compute_deadline now timeout_ms =
    carry (record {
      sec = now.sec + timeout_ms / 1000;
      nsec = now.nsec + timeout_ms % 1000 * 1_000_000;
    })

-- C's `z / d` for a positive d: towards zero.
abbrev pub quot : ℤ → ℕ → ℤ
quot (pos n) d = pos (n / d)
quot (negsuc n) d = sub_ℕ 0 ((n + 1) / d)

-- `s_diff * 1000 + ns_diff / 1000000`, by the positive and negative parts of the two.
unfoldable pub ms_until : Timespec → Timespec → ℤ
ms_until deadline now =
    let s_diff = sub_ℕ deadline.sec now.sec in
    let ns_part = quot (sub_ℕ deadline.nsec now.nsec) 1_000_000 in
    sub_ℕ (pos_part s_diff * 1000 + pos_part ns_part) (neg_part s_diff * 1000 + neg_part ns_part)

abbrev pub shutdown_poll_ms : ℕ
shutdown_poll_ms = 1000

abbrev timeval_of_ms : ℕ → Timeval
timeval_of_ms ms = record { sec = ms / 1000; usec = ms % 1000 * 1000 }

-- `none` for the return value 0: the deadline has passed.
unfoldable pub next_select_tv : Option Timespec → Timespec → Option Timeval
unfolding ms_until
next_select_tv none now = some (timeval_of_ms shutdown_poll_ms)
next_select_tv (some deadline) now =
    let budget_ms = ms_until deadline now in
    if is_positive budget_ms
    then some (
        timeval_of_ms (
          if ltb shutdown_poll_ms (pos_part budget_ms)
          then shutdown_poll_ms
          else pos_part budget_ms))
    else none
