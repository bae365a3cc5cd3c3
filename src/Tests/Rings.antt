-- ===== src/Tests/Rings.antt =====
-- Rings whose counters are about to wrap, and the turns of the host at them.
use ntlinux.Common.{ℕ, ◌+◌, ◌≡◌, List, [], ◌∷◌, length, true, false, arith, if◌then◌else◌}
use mathlib.Core.Path.{sym}
use ntlinux.Common.Distinct.{sum_below_zero}
use ntlinux.Common.Windows.{Popped}
use ntlinux.Ntbridge.Ring.{Ring, try_push, try_pop}
use ntlinux.Ntbridge.Ring.Refine.{contents, IsRing, try_push-refines, try_pop-refines}
use ntlinux.Ntbridge.Host.{reply_to, UsbEcho, usb_echo_tick, Acks}
use ntlinux.Ntbridge.Ring.Fill.{fill}
use ntlinux.Ntbridge.Messages.{UsbUrbMsg, PnpDescriptor, PnpAck, NetFrame}
use ntlinux.Ntbridge.Host.Turns.{marked, usb_echo_tick-replies}

-- Counters 2^64 - 1 and 1: two elements, in the slots 63 and 0.
abbrev wrapped : Ring ℕ
wrapped = record { head = 1; tail = 18446744073709551615; slots = λ i. i + 10 }

wrapped-IsRing : IsRing wrapped
wrapped-IsRing = record { head_lt = omega arith; tail_lt = omega arith; fits = omega arith }

try_push-refines_example :
    let (done, t) = try_push 7 wrapped in
    (done ≡ true) × (contents t ≡ (if done then 73 ∷ 10 ∷ 7 ∷ [] else 73 ∷ 10 ∷ [])) × IsRing t
try_push-refines_example = try_push-refines 7 wrapped-IsRing

try_pop-refines_example :
    let (out, t) = try_pop wrapped in Popped (73 ∷ 10 ∷ []) out (contents t) × IsRing t
try_pop-refines_example = try_pop-refines wrapped-IsRing

-- A ring that holds two elements across the wrap, and an empty one.
abbrev pair {ℓ} : {A : Type ℓ} → A → Ring A
pair x = record { head = 1; tail = 18446744073709551615; slots = λ i. x }

abbrev none_yet {ℓ} : {A : Type ℓ} → A → Ring A
none_yet x = record { head = 0; tail = 0; slots = λ i. x }

pair-IsRing {ℓ} : {A : Type ℓ} (x : A) → IsRing (pair x)
pair-IsRing x = record { head_lt = omega arith; tail_lt = omega arith; fits = omega arith }

none_yet-IsRing {ℓ} : {A : Type ℓ} (x : A) → IsRing (none_yet x)
none_yet-IsRing x = record { head_lt = omega arith; tail_lt = omega arith; fits = omega arith }

abbrev urb : UsbUrbMsg
urb = record { request_id = 3; function = 9; status = 0; endpoint = 129; length = 0; payload = [] }

abbrev echo : UsbEcho
echo = record { req_ring = pair urb; resp_ring = none_yet urb; requests_seen = 5; replies_sent = 4 }

usb_echo_tick-replies_example :
    let t = usb_echo_tick echo in
    (contents t.req_ring ≡ [])
    × (contents t.resp_ring ≡ fill [] (reply_to urb ∷ reply_to urb ∷ []))
    × (t.requests_seen ≡ 7)
    × (length (contents t.resp_ring) + 4 ≡ 0 + t.replies_sent)
    × IsRing t.req_ring
    × IsRing t.resp_ring
usb_echo_tick-replies_example = usb_echo_tick-replies echo (pair-IsRing urb) (none_yet-IsRing urb)

abbrev text : ℕ → List ℕ
text i = i ∷ []

abbrev no_device : PnpDescriptor
no_device = record {
  device_id = 0;
  action = 0;
  bus_type = 0;
  vendor_id = 0;
  product_id = 0;
  hardware_id = [];
  friendly_name = [];
  location = [];
}

-- One device acknowledged twice.
abbrev ack : PnpAck
ack = record { device_id = 1001; action = 0; status = 0 }

abbrev nothing_acked : Acks
nothing_acked = record { acked = λ i. false; acked_count = 0 }

nothing_marked : nothing_acked.acked_count ≡ marked nothing_acked
unfolding marked
nothing_marked = sym (sum_below_zero 4096)

abbrev frame : NetFrame
frame = record { length = 2; payload = 1 ∷ 2 ∷ [] }
