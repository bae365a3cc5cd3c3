-- ===== src/Ntusb/Refusals.antt =====
-- driver/usb/reactos/ntusb.c: which bulk transfers are refused, and what that leaves.
use ntlinux.Common.{
  ℕ, ◌%◌, ◌≤◌, ◌≡◌, refl, sym, ap, ◌∙◌, some, none, Bool, true, false, List, ◌==◌, not, ltb, leb,
  length, if◌then◌else◌, Bool-cases, Option-cases, inl, inr, arith,
}
use ntlinux.Ntbridge.Ring.{try_push, try_pop}
use ntlinux.Ntbridge.Ring.Refine.{contents, IsRing, try_push-refines}
use ntlinux.Ntusb.{
  Urb, Fdo, Pdo, Transfer, UsbdStatus, usbd_success, device_gone, interface_not_found,
  invalid_pipe_handle, out_transfer, in_transfer, bulk, bulk_transfer, is_success, message,
  incremented, max_transfer,
}
use ntlinux.Ntbridge.Region.{Header}

-- Whether an OUT transfer finds a region, and a place in its request ring.
abbrev pub has_room : Fdo → Bool
has_room f = elim f.shm [ none ↦ false | some shm ↦ ltb (length (contents shm.usb_req_ring)) 64 ]

-- The status that a bulk transfer gets. The endpoint is the low byte of the pipe's handle.
abbrev pub expected : Transfer → Fdo → Pdo → UsbdStatus
expected x f p =
    let endpoint = x.pipe_handle % 256 in
    if not p.configuration_selected
    then interface_not_found
    else if endpoint == 129
    then usbd_success
    else if not (endpoint == 1)
    then invalid_pipe_handle
    else if has_room f
    then usbd_success
    else device_gone

out_transfer-status :
    (endpoint : ℕ) (x : Transfer) (f : Fdo)
    → ((shm : Header) → f.shm ≡ some shm → IsRing shm.usb_req_ring)
    → let (st, y, g) = out_transfer endpoint x f in
      (st ≡ (if has_room f then usbd_success else device_gone))
      × (y ≡ (if is_success st then y else x))
      × (g.shm ≡ (if is_success st then g.shm else f.shm))
unfolding out_transfer
out_transfer-status endpoint x f v = elim (Option-cases f.shm) [
  | inl e ↦ rw (e, out_transfer, has_room) (refl, refl, e)
  | inr (shm, e) ↦
      let len = if ltb max_transfer x.transfer_length then max_transfer else x.transfer_length in
      let msg = message (incremented f.next_request_id) endpoint len x.buffer in
      let p = try_push-refines msg (v shm e) in
      elim (Bool-cases (try_push msg shm.usb_req_ring).0) [
        | inl sent ↦ rw (e, out_transfer, has_room, sent, sym p.0 ∙ sent) (refl, refl, refl)
        | inr full ↦ rw (e, out_transfer, has_room, full, sym p.0 ∙ full) (refl, refl, e)
      ]
]

out_transfer-bounded :
    (endpoint : ℕ) (x : Transfer) (f : Fdo)
    → (out_transfer endpoint x f).1.transfer_length ≤ x.transfer_length
unfolding out_transfer
out_transfer-bounded endpoint x f = elim (Option-cases f.shm) [
  | inl e ↦ rw (e, out_transfer) (omega arith)
  | inr (shm, e) ↦
      let len = if ltb max_transfer x.transfer_length then max_transfer else x.transfer_length in
      let msg = message (incremented f.next_request_id) endpoint len x.buffer in
      elim (Bool-cases (try_push msg shm.usb_req_ring).0) [
        | inl sent ↦ rw (e, out_transfer, sent) (ground arith)
        | inr full ↦ rw (e, out_transfer, full) (omega arith)
      ]
]

in_transfer-bounded :
    (behind : List ℕ) (x : Transfer) (f : Fdo)
    → (in_transfer behind x f).0.transfer_length ≤ x.transfer_length
unfolding in_transfer
in_transfer-bounded behind x f = elim (Option-cases f.shm) [
  | inl e ↦ rw (e, in_transfer) (omega arith)
  | inr (shm, e) ↦ elim (Option-cases (try_pop shm.usb_resp_ring).0) [
    | inl n ↦ rw (e, in_transfer, n) (omega arith)
    | inr (msg, n) ↦ rw (e, in_transfer, n) (ground arith)
  ]
]

-- How many bytes a request says were transferred.
abbrev pub transferred : Urb → ℕ
transferred (bulk_transfer x) = x.transfer_length
transferred _ = 0

kept :
    (ok : Bool) (y x : Transfer)
    → y ≡ (if ok then y else x)
    → bulk_transfer y ≡ (if ok then bulk_transfer y else bulk_transfer x)
kept true y x h = refl
kept false y x h = ap bulk_transfer h

-- On a region whose request ring is well formed, if there is one: a bulk transfer gets the first of
-- these that applies: no interface before a configuration was selected; success at the IN endpoint,
-- also when nothing waits there, and whatever the status in the message that waits, which the protocol
-- would have as the transfer's; an invalid pipe at any endpoint but the two; device gone at the OUT
-- endpoint when there is no region or 64 requests wait; success. One that does not succeed changes
-- neither the transfer nor the region. None reports more bytes than were asked for, or changes the
-- child's device.
pub bulk-refusals :
    (behind : List ℕ) (x : Transfer) (f : Fdo) (p : Pdo)
    → ((shm : Header) → f.shm ≡ some shm → IsRing shm.usb_req_ring)
    → let r = bulk behind x f p in
      (r.status ≡ expected x f p)
      × (r.urb ≡ (if is_success r.status then r.urb else bulk_transfer x))
      × (r.fdo.shm ≡ (if is_success r.status then r.fdo.shm else f.shm))
      × (transferred r.urb ≤ x.transfer_length)
      × (r.pdo ≡ p)
unfolding bulk
bulk-refusals behind x f p v =
    let ep = x.pipe_handle % 256 in
    let t = out_transfer-status ep x f v in
    elim (Bool-cases p.configuration_selected) [
      | inr none_yet ↦ rw (none_yet, bulk) (refl, refl, refl, omega arith, refl)
      | inl selected ↦ elim (Bool-cases (ep == 129)) [
        | inl is_in ↦
            let high : leb 128 ep ≡ true = ground arith in
            rw (selected, bulk, is_in, high)
              (refl, refl, refl, in_transfer-bounded behind x f, refl)
        | inr not_in ↦ elim (Bool-cases (ep == 1)) [
          | inl is_out ↦
              let low : leb 128 ep ≡ false = ground arith in
              rw (selected, bulk, not_in, is_out, low)
                (t.0, kept _ _ x t.1, t.2, out_transfer-bounded ep x f, refl)
          | inr not_out ↦ rw (selected, bulk, not_in, not_out) (refl, refl, refl, omega arith, refl)
        ]
      ]
    ]
