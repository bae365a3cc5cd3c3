-- ===== src/Wdm.antt =====
-- What the drivers under driver/ answer to a request of the I/O manager: NTSTATUS as far as they tell
-- the values apart, and what becomes of the request (IoCompleteRequest, IoCallDriver).
use ntlinux.Common.{ℕ, List, ◌++◌, Bool, true, false, take, drop}

-- Any other value is one that the kernel gave the driver, and is an error.
pub data NtStatus : Type 0 where
  status_success device_removed not_supported device_configuration_error : NtStatus
  insufficient_resources revision_mismatch buffer_too_small invalid_parameter : NtStatus
  unsuccessful : NtStatus
  failed : ℕ → NtStatus

-- NT_SUCCESS
abbrev pub nt_success : NtStatus → Bool
nt_success status_success = true
nt_success _ = false

-- What becomes of a request: it is completed with a status and its `Information`, or passed on, and
-- the status is that of the driver below.
pub data Outcome : Type 0 where
  completed : NtStatus → ℕ → Outcome
  forwarded : NtStatus → Outcome

-- The destination after RtlCopyMemory of `n` bytes.
abbrev pub copy_bytes : ℕ → List ℕ → List ℕ → List ℕ
copy_bytes n src dst = take n src ++ drop n dst
