-- ===== src/Ntusb/Transfers.antt =====
-- driver/usb/reactos/ntusb.c: bulk transfers, and their round through the host.
use ntlinux.Common.{
  ℕ, ◌+◌, ◌%◌, ◌^◌, ◌≡◌, refl, sym, ap, ◌∙◌, List, [], ◌∷◌, ◌++◌, none, some, true, arith, take,
  drop, get_or, length, ltb, if◌then◌else◌, Bool-cases, Option-cases, inl, inr, min,
}
use ntlinux.Ntbridge.Messages.{UsbUrbMsg}
use ntlinux.Ntbridge.Ring.{Ring, try_push, try_pop}
use ntlinux.Ntbridge.Ring.Refine.{
  contents, IsRing, try_push-refines, try_pop-refines, try_pop-none, try_pop-some,
}
use ntlinux.Ntbridge.Region.{Header}
use ntlinux.Ntusb.{
  Fdo, Pdo, Transfer, usbd_success, device_gone, out_transfer, in_transfer, bulk, message,
  incremented, max_transfer, copied, process_urb, bulk_transfer, bulk_in_endpoint,
  bulk_out_endpoint, Constants,
}
use ntlinux.Ntusb.Control.{TestBulkIo, test_bulk, test_result, at_most_4096}
use ntlinux.Ntbridge.Host.{usb_echo_tick}

abbrev pub pushed : (endpoint : ℕ) → Transfer → Fdo → UsbUrbMsg
pushed endpoint x f =
    message (incremented f.next_request_id) endpoint (min 4096 x.transfer_length) x.buffer

-- An OUT transfer on a well-formed request ring succeeds exactly when fewer than 64 requests wait. It
-- then queues one message with the endpoint, a new id and 4096 bytes of the transfer at most, and
-- reports how many bytes those were. One that fails leaves the ring and the transfer as they are.
-- In both cases the id counts up, and nothing else changes.
pub out_transfer-queues :
    (endpoint : ℕ) (x : Transfer) (f : Fdo) (shm : Header)
    → f.shm ≡ some shm
    → IsRing shm.usb_req_ring
    → let (status, y, g) = out_transfer endpoint x f in
      let ok = ltb (length (contents shm.usb_req_ring)) 64 in
      (t : Ring UsbUrbMsg) × (g ≡ record f {
        shm = some (record shm { usb_req_ring = t });
        next_request_id = (f.next_request_id + 1) % 2 ^ 32;
      })
      × (status ≡ (if ok then usbd_success else device_gone))
      × (y ≡ (if ok then record x { transfer_length = min 4096 x.transfer_length } else x))
      × (contents t ≡ (
          if ok
          then contents shm.usb_req_ring ++ pushed endpoint x f ∷ []
          else contents shm.usb_req_ring))
      × IsRing t
unfolding out_transfer
out_transfer-queues endpoint x f shm e v =
    let m : (if ltb max_transfer x.transfer_length then max_transfer else x.transfer_length)
        ≡ min 4096 x.transfer_length =
      ground arith in
    let p = try_push-refines (pushed endpoint x f) v in
    elim (Bool-cases (try_push (pushed endpoint x f) shm.usb_req_ring).0) [
      | inl sent ↦
          rw (e, out_transfer, m, sent, sym p.0 ∙ sent)
            (
              (try_push (pushed endpoint x f) shm.usb_req_ring).1,
              refl,
              refl,
              refl,
              p.1
                  ∙ ap
                      (λ d.
                        if d
                        then contents shm.usb_req_ring ++ pushed endpoint x f ∷ []
                        else contents shm.usb_req_ring)
                      sent,
              p.2,
            )
      | inr full ↦
          rw (e, out_transfer, m, full, sym p.0 ∙ full)
            (
              shm.usb_req_ring,
              ap (λ o. record f { shm = o; next_request_id = (f.next_request_id + 1) % 2 ^ 32 }) e,
              refl,
              refl,
              refl,
              v,
            )
    ]

-- The part of a message that an IN transfer takes.
abbrev pub received : List ℕ → UsbUrbMsg → Transfer → Transfer
received behind msg x =
    let len = min msg.length x.transfer_length in
    record x { transfer_length = len; buffer = copied len (msg.payload ++ behind) x.buffer }

-- An IN transfer on a well-formed response ring takes the oldest message, or nothing.
pub in_transfer-pops :
    (behind : List ℕ) (x : Transfer) (f : Fdo) (shm : Header) (msg : UsbUrbMsg)
    (rest : List UsbUrbMsg)
    → f.shm ≡ some shm
    → IsRing shm.usb_resp_ring
    → contents shm.usb_resp_ring ≡ msg ∷ rest
    → let (y, g) = in_transfer behind x f in
      (t : Ring UsbUrbMsg) × (g ≡ record f { shm = some (record shm { usb_resp_ring = t }) })
      × (y ≡ received behind msg x)
      × (contents t ≡ rest)
      × IsRing t
unfolding in_transfer
in_transfer-pops behind x f shm msg rest e v c =
    let p = try_pop-refines v in
    let r = try_pop shm.usb_resp_ring in
    elim (Option-cases r.0) [
      | inl n ↦ let q = try_pop-none v n in absurd (omega (arith, ap length (sym c ∙ q.0)))
      | inr (m, n) ↦
          let q : contents shm.usb_resp_ring ≡ m ∷ contents r.1 = try_pop-some m v n in
          let first : msg ≡ m = ap (λ ms. get_or ms 0 msg) (sym c ∙ q) in
          let others : rest ≡ contents r.1 = ap (drop 1) (sym c ∙ q) in
          let l : (if ltb x.transfer_length m.length then x.transfer_length else m.length)
              ≡ min m.length x.transfer_length =
            ground arith in
          rw (e, in_transfer, n, l, sym first) (r.1, refl, refl, sym others, p.1)
    ]

-- The host's turn at the rings of the region.
abbrev pub host_turn : Fdo → Fdo
host_turn f = elim f.shm [
  | none ↦ f
  | some shm ↦
      let t = usb_echo_tick (record {
        req_ring = shm.usb_req_ring;
        resp_ring = shm.usb_resp_ring;
        requests_seen = 0;
        replies_sent = 0;
      }) in
      record f {
        shm = some (record shm { usb_req_ring = t.req_ring; usb_resp_ring = t.resp_ring });
      }
]

-- The transfer that the test path makes of its structure.
abbrev pub transfer_of : TestBulkIo → Transfer
transfer_of io = record {
  pipe_handle = io.endpoint;
  transfer_length = at_most_4096 io.length;
  buffer = some (take (at_most_4096 io.length) io.data_bytes);
}

pub test_bulk-out :
    (c : Constants) (behind : List ℕ) (io : TestBulkIo) (f : Fdo) (p : Pdo)
    → io.endpoint ≡ bulk_out_endpoint
    → let (st, y, g) = out_transfer bulk_out_endpoint (transfer_of io) f in
      test_bulk c behind io f p
      ≡ (test_result io st (bulk_transfer y), g, record p { configuration_selected = true })
unfolding test_bulk process_urb bulk
test_bulk-out c behind io f p e = rw e refl

pub test_bulk-in :
    (c : Constants) (behind : List ℕ) (io : TestBulkIo) (f : Fdo) (p : Pdo)
    → io.endpoint ≡ bulk_in_endpoint
    → let (y, g) = in_transfer behind (transfer_of io) f in
      test_bulk c behind io f p ≡ (
        test_result io usbd_success (bulk_transfer y),
        g,
        record p { configuration_selected = true },
      )
unfolding test_bulk process_urb bulk
test_bulk-in c behind io f p e = rw e refl
