-- ===== src/Ntd/Complete.antt =====
-- ntd/ntd.c: the functions that answer a request, each writing its own fields of the response.
use ntlinux.Common.{ℕ, ℤ, Option, none, some}
use ntlinux.Ntabi.{Status, Apc, Packet}
use ntlinux.Ntd.State.{Ntd, slot_at, post}

unfoldable pub complete : Ntd → ℕ → Status → ℕ → ℤ → Ntd
unfolding post
complete s i status handle prev_count =
    post s i
      (record (slot_at s i).resp { status = status; handle = handle; prev_count = prev_count })

unfoldable pub complete_wait_multiple : Ntd → ℕ → Status → ℤ → Ntd
unfolding post
complete_wait_multiple s i status satisfied_index =
    post s i (record (slot_at s i).resp { status = status; satisfied_index = satisfied_index })

-- The old name is left where `shm_name` is NULL.
unfoldable pub complete_section : Ntd → ℕ → Status → ℕ → ℤ → Option ℕ → Ntd
unfolding post
complete_section s i status handle size shm_name = post s i (record (slot_at s i).resp {
  status = status;
  handle = handle;
  section_size = size;
  shm_name = elim shm_name [ none ↦ (slot_at s i).resp.shm_name | some n ↦ some n ];
})

unfoldable pub complete_io : Ntd → ℕ → Status → Packet → Ntd
unfolding post
complete_io s i status p = post s i (record (slot_at s i).resp { status = status; packet = p })

unfoldable pub complete_suspend : Ntd → ℕ → Status → ℤ → Ntd
unfolding post
complete_suspend s i status prev =
    post s i (record (slot_at s i).resp { status = status; prev_suspend_count = prev })

unfoldable pub complete_apc : Ntd → ℕ → Status → Apc → Ntd
unfolding post
complete_apc s i status apc = post s i (record (slot_at s i).resp { status = status; apc = apc })
