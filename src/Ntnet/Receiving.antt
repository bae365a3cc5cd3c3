-- ===== src/Ntnet/Receiving.antt =====
-- driver/net/reactos/ntnet.c: the way of the TAP device's frames to the guest's network stack.
use ntlinux.Common.{
  append_nil, append_assoc, ℕ, zero, suc, ◌+◌, ◌-◌, ◌%◌, ◌^◌, ◌≤◌, ◌<◌, ◌≡◌, refl, sym, ap, ◌∙◌,
  List, [], ◌∷◌, ◌++◌, map, true, false, ◌&&◌, arith, take, drop, length, leb, if◌then◌else◌,
  Bool-cases, inl, inr,
}
use ntlinux.Ntbridge.Messages.{NetFrame}
use ntlinux.Ntbridge.Ring.Refine.{contents, IsRing}
use ntlinux.Ntbridge.Ring.Loops.{rounds}
use ntlinux.Ntbridge.Ring.Fill.{take_nil, fill, push_all-fills, fold, pop_loop-fold, rounds_enough}
use ntlinux.Ntbridge.Host.{receive_frames}
use ntlinux.Ntnet.{Adapter, Indication, Received, bad_length, indication, receive_frame, poll_timer}

-- The frames that have the length of an Ethernet frame.
abbrev pub ethernet : List NetFrame → List NetFrame
ethernet [] = []
ethernet (f ∷ fs) = if leb 14 f.length && leb f.length 1514 then f ∷ ethernet fs else ethernet fs

-- What a frame carries, and what the stack was given: the bytes and their number.
abbrev pub carried : NetFrame → List ℕ × ℕ
carried f = (take f.length f.payload, f.length)

abbrev pub given : Indication → List ℕ × ℕ
given i = (i.header ++ i.lookahead, i.packet_size)

take-drop {ℓ} :
    {A : Type ℓ} (m n : ℕ) (xs : List A) → take m xs ++ take n (drop m xs) ≡ take (m + n) xs
take-drop zero n xs = let e : 0 + n ≡ n = omega arith in rw e refl
take-drop (suc m) n [] = take_nil n ∙ sym (take_nil (suc m + n))
take-drop (suc m) n (x ∷ xs) =
    let e : suc m + n ≡ suc (m + n) = omega arith in rw e (ap (◌∷◌ x) (take-drop m n xs))

given-carried : (f : NetFrame) → 14 ≤ f.length → given (indication f) ≡ carried f
given-carried f le =
    let e : 14 + (f.length - 14) ≡ f.length = omega arith in
    ap (λ bytes. (bytes, f.length))
      (take-drop 14 (f.length - 14) f.payload ∙ ap (λ n. take n f.payload) e)

map-snoc {ℓ κ} :
    {A : Type ℓ} {B : Type κ} (g : A → B) (xs : List A) (x : A)
    → map g (xs ++ x ∷ []) ≡ map g xs ++ g x ∷ []
map-snoc g [] x = refl
map-snoc g (y ∷ ys) x = ap (◌∷◌ (g y)) (map-snoc g ys x)

-- What the receiving of frames adds to the counters and to the indications.
abbrev Receives : List NetFrame → Received → Received → Type 0
Receives fs r s =
    (map given s.indicated ≡ map given r.indicated ++ map carried (ethernet fs))
    × (s.rcv_ok ≡ (r.rcv_ok + length (ethernet fs)) % 2 ^ 32)
    × (s.rcv_error ≡ (r.rcv_error + (length fs - length (ethernet fs))) % 2 ^ 32)
    × (length (ethernet fs) ≤ length fs)

receive_frame-bad :
    (f : NetFrame) (r : Received)
    → bad_length f ≡ true
    → receive_frame f r ≡ record r { rcv_error = (r.rcv_error + 1) % 2 ^ 32 }
unfolding receive_frame
receive_frame-bad f r e = rw e refl

receive_frame-good :
    (f : NetFrame) (r : Received)
    → bad_length f ≡ false
    → receive_frame f r
      ≡ record r { rcv_ok = (r.rcv_ok + 1) % 2 ^ 32; indicated = r.indicated ++ indication f ∷ [] }
unfolding receive_frame
receive_frame-good f r e = rw e refl

fold-Receives :
    (fs : List NetFrame) (r : Received)
    → r.rcv_ok < 2 ^ 32
    → r.rcv_error < 2 ^ 32
    → Receives fs r (fold receive_frame fs r)
fold-Receives [] r h k =
    (sym (append_nil (map given r.indicated)), omega arith, omega arith, omega arith)
fold-Receives (f ∷ fs) r h k = elim (Bool-cases (bad_length f)) [
  | inl bad ↦
      let no : (leb 14 f.length && leb f.length 1514) ≡ false = ground arith in
      let t =
        fold-Receives fs (record r { rcv_error = (r.rcv_error + 1) % 2 ^ 32 }) h (omega arith) in
      rw (receive_frame-bad f r bad, fold, no)
        (t.0, t.1, omega (arith, t.2, t.3), omega (arith, t.3))
  | inr good ↦
      let yes : (leb 14 f.length && leb f.length 1514) ≡ true = ground arith in
      let t =
        fold-Receives fs
          (record r {
            rcv_ok = (r.rcv_ok + 1) % 2 ^ 32;
            indicated = r.indicated ++ indication f ∷ [];
          })
          (omega arith) k in
      let g = given-carried f (ground arith) in
      rw (receive_frame-good f r good, fold, yes)
        (
          t.0
              ∙ ap (λ c. c ++ map carried (ethernet fs))
                  (map-snoc given r.indicated (indication f)
                    ∙ ap (λ c. map given r.indicated ++ c ∷ []) g)
              ∙ append_assoc (map given r.indicated) (carried f ∷ []) (map carried (ethernet fs)),
          omega (arith, t.1),
          omega (arith, t.2, t.3),
          omega (arith, t.3),
        )
]

-- The frames that the TAP device gives at a turn of the host reach the guest's stack at the next
-- turn of the poll timer, on a well-formed ring and with counters of 32 bits: of the frames that
-- waited and as many of the TAP's as 64 places hold, those of 14 to 1514 bytes are indicated in
-- order, header and look-ahead together being the bytes that the frame carries, and counted; each
-- other one counts as an error. The ring is empty then, and the timer is set again.
pub receive_frames-poll_timer :
    (tap : List NetFrame) (a : Adapter)
    → IsRing a.shm.net_rx_ring
    → a.rcv_ok < 2 ^ 32
    → a.rcv_error < 2 ^ 32
    → let rx = (receive_frames tap a.shm.net_rx_ring).1 in
      let (indicated, b) = poll_timer (record a { shm = record a.shm { net_rx_ring = rx } }) in
      let fs = fill (contents a.shm.net_rx_ring) tap in
      (map given indicated ≡ map carried (ethernet fs))
      × (b.rcv_ok ≡ (a.rcv_ok + length (ethernet fs)) % 2 ^ 32)
      × (b.rcv_error ≡ (a.rcv_error + (length fs - length (ethernet fs))) % 2 ^ 32)
      × (contents b.shm.net_rx_ring ≡ [])
      × IsRing b.shm.net_rx_ring
      × (b.timer_sets ≡ a.timer_sets + 1)
unfolding receive_frames poll_timer
receive_frames-poll_timer tap a v h k =
    let p = push_all-fills tap v in
    let rx = (receive_frames tap a.shm.net_rx_ring).1 in
    let r0 : Received = record { rcv_ok = a.rcv_ok; rcv_error = a.rcv_error; indicated = [] } in
    let l = pop_loop-fold receive_frame (rounds rx) r0 p.2 (rounds_enough rx) in
    let f = fold-Receives (fill (contents a.shm.net_rx_ring) tap) r0 h k in
    let e = l.0 ∙ ap (λ c. fold receive_frame c r0) p.0 in
    (
      ap (λ r. map given r.indicated) e ∙ f.0,
      ap (λ r. r.rcv_ok) e ∙ f.1,
      ap (λ r. r.rcv_error) e ∙ f.2,
      l.1,
      l.2,
      refl,
    )
