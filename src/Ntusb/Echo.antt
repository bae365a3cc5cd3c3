-- ===== src/Ntusb/Echo.antt =====
-- driver/usb/reactos/ntusb.c and driver/ntbridge/host/ntbridge-host.c: the test of the USB bridge, from
-- the guest to the host and back.
use ntlinux.Common.{
  ℕ, zero, suc, ◌≤◌, ◌≡◌, refl, ap, ◌∙◌, List, [], ◌∷◌, ◌++◌, some, arith, take, drop, length, map,
  ltb, if◌then◌else◌, min, length-append, length-take, take-append,
}
use ntlinux.Wdm.{copy_bytes}
use ntlinux.Ntbridge.Messages.{UsbUrbMsg}
use ntlinux.Ntbridge.Ring.Refine.{contents, IsRing}
use ntlinux.Ntbridge.Ring.Fill.{fill}
use ntlinux.Ntbridge.Region.{Header}
use ntlinux.Ntbridge.Host.{reply_to, usb_echo_reply, UsbEcho, usb_echo_tick}
use ntlinux.Ntbridge.Host.Turns.{usb_echo_tick-replies}
use ntlinux.Ntusb.{Fdo, Pdo, usbd_success, Constants, bulk_in_endpoint, bulk_out_endpoint}
use ntlinux.Ntusb.Control.{at_most_4096, TestBulkIo, test_bulk}
use ntlinux.Ntusb.Transfers.{
  out_transfer-queues, in_transfer-pops, transfer_of, host_turn, pushed, test_bulk-out,
  test_bulk-in,
}

module _ {ℓ} {A : Type ℓ} where
  take-take : (n : ℕ) (xs : List A) → take n (take n xs) ≡ take n xs
  take-take zero xs = refl
  take-take (suc n) [] = refl
  take-take (suc n) (x ∷ xs) = ap (◌∷◌ x) (take-take n xs)

  -- What comes out of a buffer into which no more than the source's bytes were copied.
  through :
      (n : ℕ) (src behind buf : List A)
      → n ≤ length src
      → take n (take n (take n (src ++ behind) ++ buf)) ≡ take n src
  through n src behind buf h =
      let l = length-take n (src ++ behind) in
      let m = length-append src behind in
      take-take n (take n (src ++ behind) ++ buf)
      ∙ take-append n (take n (src ++ behind)) buf (omega (arith, h, l, m))
      ∙ take-take n (src ++ behind)
      ∙ take-append n src behind h

echo-out :
    (c : Constants) (behind : List ℕ) (io : TestBulkIo) (f : Fdo) (p : Pdo) (shm : Header)
    → io.endpoint ≡ bulk_out_endpoint
    → f.shm ≡ some shm
    → IsRing shm.usb_req_ring
    → IsRing shm.usb_resp_ring
    → contents shm.usb_req_ring ≡ []
    → contents shm.usb_resp_ring ≡ []
    → let (o, g, q) = test_bulk c behind io f p in
      (o.status ≡ usbd_success)
      × (o.length ≡ min 4096 io.length)
      × (s : Header) × (m : UsbUrbMsg) × ((host_turn g).shm ≡ some s)
      × IsRing s.usb_resp_ring
      × (contents s.usb_resp_ring ≡ reply_to m ∷ [])
echo-out c behind io f p shm e es vq vr cq cr =
    let h = test_bulk-out c behind io f p e in
    let (ring, eg, st, ey, cont, vt) =
      out_transfer-queues bulk_out_endpoint (transfer_of io) f shm es vq in
    let m = pushed bulk_out_endpoint (transfer_of io) f in
    let one : contents ring ≡ m ∷ [] =
      cont ∙ ap (λ c. if ltb (length c) 64 then c ++ m ∷ [] else c) cq in
    let u : UsbEcho = record {
      req_ring = ring;
      resp_ring = shm.usb_resp_ring;
      requests_seen = 0;
      replies_sent = 0;
    } in
    let t = usb_echo_tick-replies u vt vr in
    let r : contents (usb_echo_tick u).resp_ring ≡ reply_to m ∷ [] =
      t.1
      ∙ ap (λ c. fill c (map reply_to (contents ring))) cr
      ∙ ap (λ c. fill [] (map reply_to c)) one in
    rw (h, eg, st, ey, cq)
      (
        refl,
        ground arith,
        record shm {
          usb_req_ring = (usb_echo_tick u).req_ring;
          usb_resp_ring = (usb_echo_tick u).resp_ring;
        },
        m,
        refl,
        t.5,
        r,
      )

echo-in :
    (c : Constants) (behind : List ℕ) (io : TestBulkIo) (f : Fdo) (p : Pdo) (shm : Header)
    (m : UsbUrbMsg)
    → io.endpoint ≡ bulk_in_endpoint
    → f.shm ≡ some shm
    → IsRing shm.usb_resp_ring
    → contents shm.usb_resp_ring ≡ reply_to m ∷ []
    → let i = (test_bulk c behind io f p).0 in
      let n = min 25 io.length in
      (i.status ≡ usbd_success)
      × (i.length ≡ n)
      × (i.data_bytes ≡ copy_bytes n usb_echo_reply io.data_bytes)
echo-in c behind io f p shm m e es v cont =
    let h = test_bulk-in c behind io f p e in
    let x = transfer_of io in
    let (ring, eg, ey, rest, vt) = in_transfer-pops behind x f shm (reply_to m) [] es v cont in
    let n : ℕ = min 25 (at_most_4096 io.length) in
    let a : at_most_4096 n ≡ n = ground arith in
    let b : n ≡ min 25 io.length = ground arith in
    let t =
      through n usb_echo_reply behind (drop n (take (at_most_4096 io.length) io.data_bytes))
        (omega arith) in
    rw (h, ey, a, t, b) (refl, refl, refl)

-- On a mapped region with both USB rings well formed and empty: a test transfer OUT, a turn of the
-- host, and a test transfer IN, all succeed. The first reports its own length, up to 4096. The second
-- finds the host's reply: its length, up to 25, and that many of its bytes, whatever memory holds
-- behind the message.
pub test_bulk-echo :
    (c : Constants) (behind : List ℕ) (out_io in_io : TestBulkIo) (f : Fdo) (p : Pdo) (shm : Header)
    → out_io.endpoint ≡ bulk_out_endpoint
    → in_io.endpoint ≡ bulk_in_endpoint
    → f.shm ≡ some shm
    → IsRing shm.usb_req_ring
    → IsRing shm.usb_resp_ring
    → contents shm.usb_req_ring ≡ []
    → contents shm.usb_resp_ring ≡ []
    → let (o, g, q) = test_bulk c behind out_io f p in
      let i = (test_bulk c behind in_io (host_turn g) q).0 in
      let n = min 25 in_io.length in
      (o.status ≡ usbd_success)
      × (o.length ≡ min 4096 out_io.length)
      × (i.status ≡ usbd_success)
      × (i.length ≡ n)
      × (i.data_bytes ≡ copy_bytes n usb_echo_reply in_io.data_bytes)
test_bulk-echo c behind out_io in_io f p shm eo ei es vq vr cq cr =
    let (o, n, s, m, e, v, r) = echo-out c behind out_io f p shm eo es vq vr cq cr in
    let (_, g, q) = test_bulk c behind out_io f p in
    let (i, j, d) = echo-in c behind in_io (host_turn g) q s m ei e v r in (o, n, i, j, d)
