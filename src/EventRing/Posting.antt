-- ===== src/EventRing/Posting.antt =====
-- What an event that the controller writes does to the event ring of kernel/usb/xhci/ring.cpp.
use mikansaos.Base.{
  ℕ, ◌+◌, ◌-◌, ◌<◌, ◌≤◌, ◌==◌, if◌then◌else◌, ◌≡◌, ◌≢◌, refl, sym, ap, ◌∙◌, inl, inr, true, false,
  List, [], ◌∷◌, ◌++◌, length, length-append, Bool-cases, arith,
}
use mathlib.Core.Path.{ap₂}
use mikansaos.Base.Maps.{update}
use mikansaos.Base.Slices.{append_nil, append_assoc}
use mikansaos.Ring.{Trb, stamp, flip}
use mikansaos.Ring.Laid.{cycle-stamp, cycle-update}
use mikansaos.Ring.Slice.{slice, length-slice, slice-update, slice-write}
use mikansaos.EventRing.{EventRing}
use mikansaos.EventRing.Queued.{
  Producer, next_place, post, IsLaid, IsBehind, queued, queued-same, queued-before,
}

next_place-inner :
    (size : ℕ) (c : Producer)
    → c.enqueue + 1 ≢ size
    → next_place size c ≡ record c { enqueue = c.enqueue + 1 }
unfolding next_place
next_place-inner size c h =
    let more : (c.enqueue + 1 == size) ≡ false = ground arith in rw more refl

next_place-last :
    (size : ℕ) (c : Producer)
    → c.enqueue + 1 ≡ size
    → next_place size c ≡ record { enqueue = 0; bit = flip c.bit }
unfolding next_place
next_place-last size c h = let last : (c.enqueue + 1 == size) ≡ true = ground arith in rw last refl

-- The cycle bits stay laid out in this way.
pub post-IsLaid :
    (r : EventRing) (c : Producer) (t : Trb)
    → IsLaid r c
    → IsLaid (post r c t) (next_place r.segment_size c)
unfolding post
post-IsLaid r c t l =
    let s = cycle-stamp t c.bit l.bit in
    elim (Bool-cases (c.enqueue + 1 == r.segment_size)) [
      | inr more ↦ rw (next_place-inner r.segment_size c (ground (arith, more))) (record {
        bit = l.bit;
        inside = ground (arith, more, l.inside);
        entries =
            λ j h. ground (arith, s, l.entries j h, cycle-update r.buf c.enqueue j (stamp t c.bit));
      })
      | inl last ↦ rw (next_place-last r.segment_size c (ground (arith, last))) (record {
        bit = omega arith;
        inside = omega (arith, l.inside);
        entries = λ j h.
            ground (
              arith,
              s,
              l.bit,
              last,
              l.entries j h,
              cycle-update r.buf c.enqueue j (stamp t c.bit),
            );
      })
    ]

-- The event comes behind those that are queued.
abbrev pub Adds : EventRing → Producer → Trb → Type 0
Adds r c t =
    let c' = next_place r.segment_size c in
    (queued (post r c t) c' ≡ queued r c ++ stamp t c.bit ∷ []) × IsBehind (post r c t) c'

same-Adds :
    (r : EventRing) (c : Producer) (t : Trb)
    → r.cycle_bit ≡ c.bit
    → r.dequeue ≤ c.enqueue
    → c.enqueue + 1 < r.segment_size
    → Adds r c t
unfolding post
same-Adds r c t same behind more =
    let next : Producer = record c { enqueue = c.enqueue + 1 } in
    let written : EventRing = record r { buf = update r.buf c.enqueue (stamp t c.bit) } in
    rw (next_place-inner r.segment_size c (omega arith)) (
      queued-same written next same
          ∙ slice-write r.buf r.dequeue c.enqueue (stamp t c.bit) behind
          ∙ ap (◌++ stamp t c.bit ∷ []) (sym (queued-same r c same)),
      inl (same, omega arith),
    )

-- The controller goes round.
last-Adds :
    (r : EventRing) (c : Producer) (t : Trb)
    → c.bit < 2
    → r.cycle_bit ≡ c.bit
    → r.dequeue ≤ c.enqueue
    → 0 < r.dequeue
    → c.enqueue + 1 ≡ r.segment_size
    → Adds r c t
unfolding post
last-Adds r c t h same behind room last =
    let next : Producer = record { enqueue = 0; bit = flip c.bit } in
    let written : EventRing = record r { buf = update r.buf c.enqueue (stamp t c.bit) } in
    let other : r.cycle_bit ≡ flip (flip c.bit) = omega arith in
    let end : r.segment_size - r.dequeue ≡ c.enqueue + 1 - r.dequeue = omega arith in
    rw (next_place-last r.segment_size c last) (
      queued-before written next (omega arith) other
          ∙ append_nil _
          ∙ ap (slice written.buf r.dequeue) end
          ∙ slice-write r.buf r.dequeue c.enqueue (stamp t c.bit) behind
          ∙ ap (◌++ stamp t c.bit ∷ []) (sym (queued-same r c same)),
      inr (other, room, omega arith),
    )

before-Adds :
    (r : EventRing) (c : Producer) (t : Trb)
    → c.bit < 2
    → r.cycle_bit ≡ flip c.bit
    → c.enqueue + 1 < r.dequeue
    → r.dequeue < r.segment_size
    → Adds r c t
unfolding post
before-Adds r c t h other room inside =
    let next : Producer = record c { enqueue = c.enqueue + 1 } in
    let written : EventRing = record r { buf = update r.buf c.enqueue (stamp t c.bit) } in
    let whole : c.enqueue + 1 - 0 ≡ c.enqueue + 1 = omega arith in
    let start : c.enqueue - 0 ≡ c.enqueue = omega arith in
    let n = r.segment_size - r.dequeue in
    rw (next_place-inner r.segment_size c (omega arith)) (
      queued-before written next h other
          ∙ ap₂ (λ (xs ys : List Trb). xs ++ ys)
              (slice-update r.buf c.enqueue r.dequeue n (stamp t c.bit) (inl (omega arith)))
              (ap (slice written.buf 0) (sym whole)
                ∙ slice-write r.buf 0 c.enqueue (stamp t c.bit) (omega arith)
                ∙ ap (λ (k : ℕ). slice r.buf 0 k ++ stamp t c.bit ∷ []) start)
          ∙ sym (
              append_assoc (slice r.buf r.dequeue n) (slice r.buf 0 c.enqueue) (stamp t c.bit ∷ []))
          ∙ ap (◌++ stamp t c.bit ∷ []) (sym (queued-before r c h other)),
      inr (other, room, inside),
    )

length-queued :
    (r : EventRing) (c : Producer)
    → c.bit < 2
    → IsBehind r c
    → length (queued r c) ≡ (
        if r.cycle_bit == c.bit
        then c.enqueue - r.dequeue
        else r.segment_size - r.dequeue + c.enqueue)
length-queued r c h (inl (same, behind)) =
    let own : (r.cycle_bit == c.bit) ≡ true = ground arith in
    rw own (ap length (queued-same r c same) ∙ length-slice r.buf r.dequeue (c.enqueue - r.dequeue))
length-queued r c h (inr (other, past, inside)) =
    let own : (r.cycle_bit == c.bit) ≡ false = ground arith in
    let n = r.segment_size - r.dequeue in
    rw own (
      ap length (queued-before r c h other)
      ∙ length-append (slice r.buf r.dequeue n) (slice r.buf 0 c.enqueue)
      ∙ ap₂ (λ (x y : ℕ). x + y) (length-slice r.buf r.dequeue n) (length-slice r.buf 0 c.enqueue))

pub post-Adds :
    (r : EventRing) (c : Producer) (t : Trb)
    → IsLaid r c
    → IsBehind r c
    → length (queued r c) + 1 < r.segment_size
    → Adds r c t
post-Adds r c t l (inl (same, behind)) room =
    let own : (r.cycle_bit == c.bit) ≡ true = ground arith in
    let size = length-queued r c l.bit (inl (same, behind)) in
    elim (Bool-cases (c.enqueue + 1 == r.segment_size)) [
      | inl last ↦
          last-Adds r c t l.bit same behind (ground (arith, size, own, last)) (ground (arith, last))
      | inr more ↦ same-Adds r c t same behind (ground (arith, more, l.inside))
    ]
post-Adds r c t l (inr (other, past, inside)) room =
    let own : (r.cycle_bit == c.bit) ≡ false = ground (arith, l.bit) in
    let size = length-queued r c l.bit (inr (other, past, inside)) in
    before-Adds r c t l.bit other (ground (arith, size, own)) inside
