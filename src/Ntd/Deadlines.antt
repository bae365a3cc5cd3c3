-- ===== src/Ntd/Deadlines.antt =====
-- ntd/ntd.c, deadlines: what `deadline_from_timeout` and `timespec_past` make of a timeout.
use ntlinux.Common.{ℕ, ◌+◌, ◌*◌, ◌<◌, ◌≡◌, leb, arith}
use ntlinux.Ntd.State.{Timespec}
use ntlinux.Ntd.Timeouts.{nsec_per_sec, deadline_from_timeout, timespec_past}

-- A time in nanoseconds.
abbrev pub nsecs : Timespec → ℕ
nsecs t = t.tv_sec * nsec_per_sec + t.tv_nsec

-- The deadline is the timeout later than the clock, to the nanosecond, and is normalised again.
pub deadline_from_timeout-exact :
    (now : Timespec) (timeout_ms : ℕ)
    → now.tv_nsec < nsec_per_sec
    → let d = deadline_from_timeout now timeout_ms in
      (nsecs d ≡ nsecs now + timeout_ms * 1000000) × (d.tv_nsec < nsec_per_sec)
unfolding deadline_from_timeout
deadline_from_timeout-exact now t h = ground arith

timespec_past-leb :
    (now d : Timespec)
    → now.tv_nsec < nsec_per_sec
    → d.tv_nsec < nsec_per_sec
    → timespec_past now d ≡ leb (nsecs d) (nsecs now)
unfolding timespec_past
timespec_past-leb now d h k = ground arith

-- A wait that starts at one reading of the clock is past its deadline at another reading exactly
-- when at least its timeout lies between them, for readings with less than 10^9 nanoseconds.
pub timespec_past-deadline :
    (start now : Timespec) (timeout_ms : ℕ)
    → start.tv_nsec < nsec_per_sec
    → now.tv_nsec < nsec_per_sec
    → timespec_past now (deadline_from_timeout start timeout_ms)
      ≡ leb (nsecs start + timeout_ms * 1000000) (nsecs now)
timespec_past-deadline start now t h k =
    let e = deadline_from_timeout-exact start t h in
    rw (timespec_past-leb now (deadline_from_timeout start t) k e.1, e.0)
