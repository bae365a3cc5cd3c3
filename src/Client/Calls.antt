-- ===== src/Client/Calls.antt =====
-- ntabi/lib/libntabi.c, the public calls: each fills in a request, submits it and hands out fields of
-- the response. `submit` is a parameter, on whatever state the connection has; where it fails without
-- a response, the response it returns here is what the caller's variable happened to hold.
use ntlinux.Common.{
  ℕ, ℤ, pos, ◌-◌, List, [], Option, none, some, Bool, true, ◌||◌, take, pos_part, leb_ℤ, ltb_ℤ,
  if◌then◌else◌,
}
use ntlinux.Ntabi.{
  Opcode, create_event, open_event, create_mutant, open_mutant, create_semaphore, open_semaphore,
  set_event, reset_event, release_mutant, release_semaphore, wait_single, close_handle,
  wait_multiple, create_section, open_section, create_completion, open_completion, post_completion,
  remove_completion, open_process, open_thread, queue_apc, suspend_thread, resume_thread, Request,
  Response, Status, user_apc, invalid_parameter, Apc, Packet, max_name, max_wait_handles,
}
use ntlinux.Ntd.Start.{zero_request}

-- NULL and "" give the empty name; `snprintf` cuts a long one to 127 bytes.
unfoldable pub fill_name : Option (List ℕ) → List ℕ
fill_name none = []
fill_name (some name) = take (max_name - 1) name

-- A request with an opcode alone, with a name, and with a handle.
abbrev pub plain : Opcode → Request
plain op = record zero_request { opcode = op }

abbrev pub named : Opcode → Option (List ℕ) → Request
named op name = record zero_request { opcode = op; name = fill_name name }

abbrev pub on_handle : Opcode → ℤ → Request
on_handle op h = record zero_request { opcode = op; handle = h }

-- `ntabi_section_info_t`
pub record SectionInfo : Type 0 where
  pub handle : ℕ
  pub size : ℤ
  pub shm_name : Option ℕ

abbrev pub section_info : Response → SectionInfo
section_info r = record { handle = r.handle; size = r.section_size; shm_name = r.shm_name }

module _ {ℓ} {S : Type ℓ} (submit : Request → S → (Status × Response) × S) where
  -- The call returns the status and one value of the response.
  abbrev returning {κ} : {A : Type κ} → (Response → A) → Request → S → (Status × A) × S
  returning f req s = let (out, t) = submit req s in let (st, r) = out in ((st, f r), t)

  abbrev status_only : Request → S → Status × S
  status_only req s = let (out, t) = submit req s in let (st, r) = out in (st, t)

  unfoldable pub ntabi_create_event : Option (List ℕ) → Bool → Bool → S → (Status × ℕ) × S
  ntabi_create_event name initial_state manual_reset =
      returning (λ r. r.handle)
        (record (named create_event name) {
          initial_state = initial_state;
          manual_reset = manual_reset;
        })

  unfoldable pub ntabi_open_event : Option (List ℕ) → S → (Status × ℕ) × S
  ntabi_open_event name = returning (λ r. r.handle) (named open_event name)

  unfoldable pub ntabi_set_event : ℤ → S → Status × S
  ntabi_set_event h = status_only (on_handle set_event h)

  unfoldable pub ntabi_reset_event : ℤ → S → Status × S
  ntabi_reset_event h = status_only (on_handle reset_event h)

  unfoldable pub ntabi_create_mutant : Option (List ℕ) → Bool → S → (Status × ℕ) × S
  ntabi_create_mutant name initial_owner =
      returning (λ r. r.handle)
        (record (named create_mutant name) { initial_state = initial_owner })

  unfoldable pub ntabi_open_mutant : Option (List ℕ) → S → (Status × ℕ) × S
  ntabi_open_mutant name = returning (λ r. r.handle) (named open_mutant name)

  unfoldable pub ntabi_release_mutant : ℤ → S → Status × S
  ntabi_release_mutant h = status_only (on_handle release_mutant h)

  unfoldable pub ntabi_create_semaphore : Option (List ℕ) → ℤ → ℤ → S → (Status × ℕ) × S
  ntabi_create_semaphore name initial_count max_count =
      returning (λ r. r.handle)
        (record (named create_semaphore name) {
          initial_count = initial_count;
          max_count = max_count;
        })

  unfoldable pub ntabi_open_semaphore : Option (List ℕ) → S → (Status × ℕ) × S
  ntabi_open_semaphore name = returning (λ r. r.handle) (named open_semaphore name)

  unfoldable pub ntabi_release_semaphore : ℤ → ℤ → S → (Status × ℤ) × S
  ntabi_release_semaphore h release_count =
      returning (λ r. r.prev_count)
        (record (on_handle release_semaphore h) { release_count = release_count })

  unfoldable pub ntabi_wait_single : ℤ → ℤ → S → Status × S
  ntabi_wait_single h timeout_ms =
      status_only (record (on_handle wait_single h) { timeout_ms = timeout_ms })

  unfoldable pub ntabi_close_handle : ℤ → S → Status × S
  ntabi_close_handle h = status_only (on_handle close_handle h)

  -- none: a count out of range, and nothing is submitted or stored.
  unfoldable pub ntabi_wait_multiple : List ℤ → ℤ → Bool → ℤ → S → (Status × Option ℤ) × S
  ntabi_wait_multiple handles count wait_all timeout_ms s =
      if leb_ℤ count (pos 0) || ltb_ℤ (pos max_wait_handles) count
      then ((invalid_parameter, none), s)
      else returning (λ r. some r.satisfied_index)
          (record (plain wait_multiple) {
            handle_count = count;
            wait_all = wait_all;
            timeout_ms = timeout_ms;
            handles = take (pos_part count) handles;
          })
          s

  unfoldable pub ntabi_create_section : Option (List ℕ) → ℤ → S → (Status × SectionInfo) × S
  ntabi_create_section name size =
      returning section_info (record (named create_section name) { section_size = size })

  unfoldable pub ntabi_open_section : Option (List ℕ) → S → (Status × SectionInfo) × S
  ntabi_open_section name = returning section_info (named open_section name)

  unfoldable pub ntabi_create_completion : Option (List ℕ) → S → (Status × ℕ) × S
  ntabi_create_completion name = returning (λ r. r.handle) (named create_completion name)

  unfoldable pub ntabi_open_completion : Option (List ℕ) → S → (Status × ℕ) × S
  ntabi_open_completion name = returning (λ r. r.handle) (named open_completion name)

  unfoldable pub ntabi_post_completion : ℤ → Packet → S → Status × S
  ntabi_post_completion h packet =
      status_only (record (on_handle post_completion h) { packet = packet })

  unfoldable pub ntabi_remove_completion : ℤ → ℤ → S → (Status × Packet) × S
  ntabi_remove_completion h timeout_ms =
      returning (λ r. r.packet) (record (on_handle remove_completion h) { timeout_ms = timeout_ms })

  unfoldable pub ntabi_open_process : ℕ → S → (Status × ℕ) × S
  ntabi_open_process target_pid =
      returning (λ r. r.handle) (record (plain open_process) { target_pid = target_pid })

  unfoldable pub ntabi_open_thread : ℕ → ℕ → S → (Status × ℕ) × S
  ntabi_open_thread target_pid target_tid =
      returning (λ r. r.handle)
        (record (plain open_thread) { target_pid = target_pid; target_tid = target_tid })

  unfoldable pub ntabi_queue_apc : ℤ → Apc → S → Status × S
  ntabi_queue_apc h apc = status_only (record (on_handle queue_apc h) { apc = apc })

  unfoldable pub ntabi_suspend_thread : ℤ → S → (Status × ℤ) × S
  ntabi_suspend_thread h = returning (λ r. r.prev_suspend_count) (on_handle suspend_thread h)

  unfoldable pub ntabi_resume_thread : ℤ → S → (Status × ℤ) × S
  ntabi_resume_thread h = returning (λ r. r.prev_suspend_count) (on_handle resume_thread h)

  -- The APC is stored only with USER_APC.
  unfoldable pub ntabi_wait_single_alertable : ℤ → ℤ → S → (Status × Option Apc) × S
  ntabi_wait_single_alertable h timeout_ms s =
      let (out, t) =
        submit (record (on_handle wait_single h) { timeout_ms = timeout_ms; alertable = true }) s in
      let (st, r) = out in ((st, elim st [ user_apc ↦ some r.apc | _ ↦ none ]), t)
