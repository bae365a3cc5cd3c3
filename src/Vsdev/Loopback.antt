-- ===== src/Vsdev/Loopback.antt =====
-- driver/vsdev/vsdev.c: what a read returns after a write.
use ntlinux.Common.{ℕ, ◌≡◌, refl, arith, ltb, if◌then◌else◌, min}
use ntlinux.Wdm.{completed, status_success}
use ntlinux.Vsdev.{Extension, dispatch_read, dispatch_write}

shorter : (a b : ℕ) → (if ltb a b then a else b) ≡ min a b
shorter a b = ground arith

-- A write of `n` bytes and then reads of `m` and of `l` bytes: the write takes at most 4096; the first
-- read returns as many bytes as were taken and asked for, in the order in which they were written,
-- and leaves the reader's buffer as it was behind them; the second read returns none, for the first
-- has emptied the device.
pub read-write :
    (n m l : ℕ) (written out out' : ℕ → ℕ) (ext : Extension)
    → let (taken, e1) = dispatch_write n written ext in
      let (bytes, first, e2) = dispatch_read m out e1 in
      let (bytes', second, e3) = dispatch_read l out' e2 in
      (taken ≡ completed status_success (min n 4096))
      × (first ≡ completed status_success (min m (min n 4096)))
      × ((j : ℕ) → bytes j ≡ (if ltb j (min m (min n 4096)) then written j else out j))
      × (second ≡ completed status_success 0)
      × ((j : ℕ) → bytes' j ≡ out' j)
unfolding dispatch_read dispatch_write
read-write n m l written out out' ext =
    rw (shorter n 4096, shorter m (min n 4096), shorter l 0)
      (refl, refl, λ j. ground arith, ground arith, λ j. ground arith)
