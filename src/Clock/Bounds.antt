-- ===== src/Clock/Bounds.antt =====
-- Deadlines are exact and normalised; a select() budget is positive, at most the poll tick, and
-- within a millisecond of the time that is left.
use dart_db_connector.Base.{ℕ, ◌+◌, ◌*◌, ◌≤◌, ◌<◌, ◌≡◌, none, some, arith}
use dart_db_connector.Clock.{
  Timespec, Timeval, ns_per_sec, deadline_from_ms, shutdown_poll_ms, next_select_tv,
}

abbrev pub to_ns : Timespec → ℕ
to_ns t = t.sec * ns_per_sec + t.nsec

abbrev pub IsNormal : Timespec → Type 0
IsNormal t = t.nsec < ns_per_sec

abbrev pub tv_us : Timeval → ℕ
tv_us tv = tv.sec * 1_000_000 + tv.usec

-- The deadline built from a normalised clock is normalised, and lies exactly the given milliseconds
-- later.
pub deadline_from_ms-exact :
    (now : Timespec) (ms : ℕ)
    → IsNormal now
    → IsNormal (deadline_from_ms now ms)
      × (to_ns (deadline_from_ms now ms) ≡ to_ns now + ms * 1_000_000)
unfolding deadline_from_ms
deadline_from_ms-exact now ms n = ground arith

-- With a normalised deadline and clock, a select() budget has normalised microseconds, is positive,
-- is at most the shutdown poll of one second, and ends less than a millisecond after the deadline.
pub next_select_tv_bounds :
    (deadline now : Timespec) (tv : Timeval)
    → IsNormal deadline
    → IsNormal now
    → next_select_tv (some deadline) now ≡ some tv
    → (tv.usec < 1_000_000)
      × (0 < tv_us tv)
      × (tv_us tv ≤ shutdown_poll_ms * 1000)
      × (to_ns now + tv_us tv * 1000 < to_ns deadline + 1_000_000)
unfolding next_select_tv
next_select_tv_bounds deadline now tv nd nn e = ground arith

-- With a normalised deadline and clock, there is no select() budget once the clock is at or past
-- the deadline.
pub next_select_tv_expired :
    (deadline now : Timespec)
    → IsNormal deadline
    → IsNormal now
    → to_ns deadline ≤ to_ns now
    → next_select_tv (some deadline) now ≡ none
unfolding next_select_tv
next_select_tv_expired deadline now nd nn e = ground arith
