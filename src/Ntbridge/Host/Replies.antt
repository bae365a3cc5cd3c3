-- ===== src/Ntbridge/Host/Replies.antt =====
-- driver/ntbridge/host/ntbridge-host.c: the loop of the USB echo.
use ntlinux.Common.{
  ℕ, zero, suc, ◌+◌, ◌<◌, ◌≡◌, refl, sym, ap, ◌∙◌, [], ◌∷◌, ◌++◌, map, arith, length, if◌then◌else◌,
  Option-cases, inl, inr,
}
use ntlinux.Ntbridge.Ring.{try_push, try_pop}
use ntlinux.Ntbridge.Ring.Refine.{
  contents, IsRing, try_push-refines, try_pop-refines, try_pop-none, try_pop-some,
}
use ntlinux.Ntbridge.Ring.Fill.{counted, fill, fill_nil, fill-cons, pushed_length}
use ntlinux.Ntbridge.Host.{reply_to, UsbEcho, answer_request, echo_loop}

-- The loop of the echo: all requests are seen, and each is answered in order while there is room.
abbrev pub Echoed : UsbEcho → UsbEcho → Type 0
Echoed s t =
    (contents t.req_ring ≡ [])
    × (contents t.resp_ring ≡ fill (contents s.resp_ring) (map reply_to (contents s.req_ring)))
    × (t.requests_seen ≡ s.requests_seen + length (contents s.req_ring))
    × (length (contents t.resp_ring) + s.replies_sent
        ≡ length (contents s.resp_ring) + t.replies_sent)
    × IsRing t.req_ring
    × IsRing t.resp_ring

pub echo_loop-Echoed :
    (fuel : ℕ) (s : UsbEcho)
    → IsRing s.req_ring
    → IsRing s.resp_ring
    → length (contents s.req_ring) < fuel
    → Echoed s (echo_loop fuel s)
unfolding echo_loop answer_request
echo_loop-Echoed zero s v w lt = absurd (omega arith)
echo_loop-Echoed (suc fuel) s v w lt =
    let p = try_pop-refines v in
    elim (Option-cases (try_pop s.req_ring).0) [
      | inl e ↦
          let q = try_pop-none v e in
          rw (e, echo_loop, q.0)
            (q.1, sym (fill_nil (contents s.resp_ring)), omega arith, omega arith, p.1, w)
      | inr (x, e) ↦
          let q : contents s.req_ring ≡ x ∷ contents (try_pop s.req_ring).1 = try_pop-some x v e in
          let a = try_push-refines (reply_to x) w in
          let c =
            a.1
            ∙ ap (λ d. if d then contents s.resp_ring ++ reply_to x ∷ [] else contents s.resp_ring)
                a.0 in
          let sent = (try_push (reply_to x) s.resp_ring).0 in
          let h =
            echo_loop-Echoed fuel
              (answer_request x (record s { req_ring = (try_pop s.req_ring).1 })) p.1 a.2
              (omega (arith, ap length q)) in
          rw (e, echo_loop, q)
            (
              h.0,
              h.1
                  ∙ ap (λ ys. fill ys (map reply_to (contents (try_pop s.req_ring).1))) c
                  ∙ sym (
                      fill-cons (contents s.resp_ring) (reply_to x)
                        (map reply_to (contents (try_pop s.req_ring).1))),
              omega (arith, h.2),
              omega
                  (arith, h.3, pushed_length (reply_to x) sent w refl, counted sent s.replies_sent),
              h.4,
              h.5,
            )
    ]
