-- ===== src/Ntnet/Sending.antt =====
-- driver/net/reactos/ntnet.c: the way of the guest's packets to the TAP device.
use ntlinux.Common.{
  append_nil, append_assoc, ℕ, ◌+◌, ◌%◌, ◌^◌, ◌≤◌, ◌≡◌, refl, sym, ap, ◌∙◌, List, [], ◌∷◌, ◌++◌,
  All, Bool, true, false, ◌&&◌, arith, length, ltb, leb, if◌then◌else◌, Bool-cases, inl, inr,
  length-append, take_all,
}
use ntlinux.Ntbridge.Messages.{NetFrame}
use ntlinux.Ntbridge.Ring.{try_push}
use ntlinux.Ntbridge.Ring.Refine.{contents, IsRing, try_push-refines}
use ntlinux.Ntbridge.Ring.Fill.{fill, fill_nil, fill-cons}
use ntlinux.Ntbridge.Host.{send_frames}
use ntlinux.Ntbridge.Host.Turns.{send_frames-in_order}
use ntlinux.Ntnet.{
  Adapter, Packet, ndis_success, failure, net_frame_max, copy_buffers, frame_of, send,
}

module _ {ℓ} {A : Type ℓ} where
  abbrev pub concat : List (List A) → List A
  concat [] = []
  concat (xs ∷ xss) = xs ++ concat xss

  length_zero : (xs : List A) → length xs ≡ 0 → xs ≡ []
  length_zero [] e = refl
  length_zero (x ∷ xs) e = absurd (omega (arith, e))

-- The frame that a packet is.
abbrev pub frame : Packet → NetFrame
frame p = record { length = p.total_length; payload = concat p.buffers }

-- What NdisQueryPacket documents: the total length is that of the buffers together.
abbrev pub IsPacket : Packet → Type 0
IsPacket p = p.total_length ≡ length (concat p.buffers)

copy_buffers-concat :
    (total : ℕ) (bs : List (List ℕ)) (out : List ℕ)
    → total ≤ net_frame_max
    → length out + length (concat bs) ≡ total
    → copy_buffers total bs out ≡ out ++ concat bs
unfolding copy_buffers
copy_buffers-concat total [] out le e = sym (append_nil out)
copy_buffers-concat total (b ∷ bs) out le e =
    let s = length-append b (concat bs) in
    let short : ltb net_frame_max ((length out + length b) % 2 ^ 32) ≡ false =
      ground (arith, s, e) in
    elim (Bool-cases (ltb (length out) total)) [
      | inl more ↦
          let t = length-append out b in
          rw (short, more, take_all (length b) b (omega arith))
            (copy_buffers-concat total bs (out ++ b) le (omega (arith, s, t, e))
              ∙ append_assoc out b (concat bs))
      | inr full ↦
          let z = length_zero (b ++ concat bs) (ground (arith, e, full)) in
          rw (full, z) (sym (append_nil out))
    ]

frame_of-frame : (p : Packet) → IsPacket p → p.total_length ≤ net_frame_max → frame_of p ≡ frame p
frame_of-frame p e le =
    rw (copy_buffers-concat p.total_length p.buffers [] le (omega (arith, e)), e) refl

abbrev accepted : Packet → Adapter → Bool
accepted p a = leb p.total_length 1514 && ltb (length (contents a.shm.net_tx_ring)) 64

-- For a packet whose total length is that of its buffers, on a well-formed ring: the send succeeds
-- exactly when the packet has at most 1514 bytes and fewer than 64 frames wait. It then appends one
-- frame, the bytes of the buffers joined, and counts it as sent; otherwise it leaves the ring as it
-- is and counts an error. Neither changes the other counter.
pub send-appends :
    (p : Packet) (a : Adapter)
    → IsPacket p
    → IsRing a.shm.net_tx_ring
    → let (status, b) = send p a in
      let ok = accepted p a in
      (status ≡ (if ok then ndis_success else failure))
      × (contents b.shm.net_tx_ring
          ≡ (if ok then contents a.shm.net_tx_ring ++ frame p ∷ [] else contents a.shm.net_tx_ring))
      × (b.xmit_ok ≡ (if ok then (a.xmit_ok + 1) % 2 ^ 32 else a.xmit_ok))
      × (b.xmit_error ≡ (if ok then a.xmit_error else (a.xmit_error + 1) % 2 ^ 32))
      × IsRing b.shm.net_tx_ring
unfolding send
send-appends p a e v = elim (Bool-cases (ltb net_frame_max p.total_length)) [
  | inl long ↦
      let no : leb p.total_length 1514 ≡ false = ground arith in
      rw (long, no) (refl, refl, refl, refl, v)
  | inr short ↦
      let yes : leb p.total_length 1514 ≡ true = ground arith in
      let f = frame_of-frame p e (ground arith) in
      let t = try_push-refines (frame p) v in
      elim (Bool-cases (try_push (frame p) a.shm.net_tx_ring).0) [
        | inl sent ↦
            rw (short, yes, f, sent, sym t.0 ∙ sent)
              (
                refl,
                t.1
                    ∙ ap
                        (λ d.
                          if d
                          then contents a.shm.net_tx_ring ++ frame p ∷ []
                          else contents a.shm.net_tx_ring)
                        sent,
                refl,
                refl,
                t.2,
              )
        | inr full ↦ rw (short, yes, f, full, sym t.0 ∙ full) (refl, refl, refl, refl, v)
      ]
]

-- Packets sent one after the other.
abbrev pub send_all : List Packet → Adapter → Adapter
send_all [] a = a
send_all (p ∷ ps) a = send_all ps (send p a).1

-- The frames of those packets that are short enough.
abbrev pub frames : List Packet → List NetFrame
frames [] = []
frames (p ∷ ps) = if leb p.total_length 1514 then frame p ∷ frames ps else frames ps

send_all-fills :
    (ps : List Packet) (a : Adapter)
    → All IsPacket ps
    → IsRing a.shm.net_tx_ring
    → let t = (send_all ps a).shm.net_tx_ring in
      (contents t ≡ fill (contents a.shm.net_tx_ring) (frames ps)) × IsRing t
send_all-fills [] a e v = (sym (fill_nil (contents a.shm.net_tx_ring)), v)
send_all-fills (p ∷ ps) a e v =
    let s = send-appends p a e.0 v in
    let h = send_all-fills ps (send p a).1 e.1 s.4 in
    (h.0 ∙ ap (λ c. fill c (frames ps)) s.1 ∙ filled (leb p.total_length 1514), h.1)
  where
    filled :
        (short : Bool)
        → fill
            (if short && ltb (length (contents a.shm.net_tx_ring)) 64
              then contents a.shm.net_tx_ring ++ frame p ∷ []
              else contents a.shm.net_tx_ring)
            (frames ps)
          ≡ fill (contents a.shm.net_tx_ring) (if short then frame p ∷ frames ps else frames ps)
    filled true = sym (fill-cons (contents a.shm.net_tx_ring) (frame p) (frames ps))
    filled false = refl

-- Packets sent one after the other through a well-formed ring, each with the length of its buffers,
-- reach the TAP device at the host's next turn: behind the frames that were waiting, in order, one
-- frame per packet of at most 1514 bytes, as many as 64 places hold. The ring is empty then.
pub send_all-send_frames :
    (ps : List Packet) (a : Adapter)
    → All IsPacket ps
    → IsRing a.shm.net_tx_ring
    → let (out, t) = send_frames (send_all ps a).shm.net_tx_ring in
      (out ≡ fill (contents a.shm.net_tx_ring) (frames ps)) × (contents t ≡ []) × IsRing t
send_all-send_frames ps a e v =
    let s = send_all-fills ps a e v in
    let h = send_frames-in_order (send_all ps a).shm.net_tx_ring s.1 in (h.0 ∙ s.0, h.1, h.2)
