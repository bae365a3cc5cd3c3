-- ===== src/Ntd/Timeouts.antt =====
-- ntd/ntd.c: deadlines. The kernel keeps 0 ≤ tv_nsec < 1000000000 in what it returns.
use ntlinux.Common.{ℕ, ◌+◌, ◌-◌, ◌*◌, ◌/◌, ◌%◌, Bool, ◌==◌, ltb, leb, if◌then◌else◌}
use ntlinux.Ntd.State.{Timespec}

abbrev pub nsec_per_sec : ℕ
nsec_per_sec = 1000000000

-- `clock_gettime` gave `now`; the only caller has `timeout_ms >= 0`.
unfoldable pub deadline_from_timeout : Timespec → ℕ → Timespec
deadline_from_timeout now timeout_ms =
    let sec = now.tv_sec + timeout_ms / 1000 in
    let nsec = now.tv_nsec + timeout_ms % 1000 * 1000000 in
    if leb nsec_per_sec nsec
    then record { tv_sec = sec + 1; tv_nsec = nsec - nsec_per_sec }
    else record { tv_sec = sec; tv_nsec = nsec }

unfoldable pub timespec_past : Timespec → Timespec → Bool
timespec_past now deadline =
    if now.tv_sec == deadline.tv_sec
    then leb deadline.tv_nsec now.tv_nsec
    else ltb deadline.tv_sec now.tv_sec
