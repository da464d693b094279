-- ===== src/EventRing/Queued.antt =====
-- The controller that fills the event ring of kernel/usb/xhci/ring.cpp, as the xHCI specification
-- describes it, and the events that are to be read.
use mikansaos.Base.{
  ℕ, suc, ◌+◌, ◌-◌, ◌<◌, ◌≤◌, ◌==◌, ltb, if◌then◌else◌, ◌≡◌, ◌≢◌, ◌⊎◌, refl, sym, ap, ◌∙◌, inl, inr,
  true, false, List, [], ◌∷◌, ◌++◌, Bool-cases, arith,
}
use mikansaos.Base.Maps.{update}
use mikansaos.Ring.{Trb, stamp, flip}
use mikansaos.Ring.Laid.{cycle_of}
use mikansaos.Ring.Slice.{slice}
use mikansaos.EventRing.{EventRing, front, has_front, pop}

-- The controller's place and cycle bit.
pub record Producer : Type 0 where
  pub enqueue : ℕ
  pub bit : ℕ

-- The controller goes on to the next place, at the end to the first one with the other cycle bit.
unfoldable pub next_place : ℕ → Producer → Producer
next_place size c =
    if c.enqueue + 1 == size
    then record { enqueue = 0; bit = flip c.bit }
    else record c { enqueue = c.enqueue + 1 }

-- It writes an event with its cycle bit.
unfoldable pub post : EventRing → Producer → Trb → EventRing
post r c t = record r { buf = update r.buf c.enqueue (stamp t c.bit) }

-- The entries before the controller's place carry its cycle bit, those from it on the other one.
pub record IsLaid (r : EventRing) (c : Producer) : Type 0 where
  pub bit : c.bit < 2
  pub inside : c.enqueue < r.segment_size
  pub entries :
      (j : ℕ)
      → j < r.segment_size
      → cycle_of (r.buf j) ≡ (if ltb j c.enqueue then c.bit else flip c.bit)

-- The driver is behind the controller, in the same round or in the one before.
abbrev pub IsBehind : EventRing → Producer → Type 0
IsBehind r c =
    ((r.cycle_bit ≡ c.bit) × (r.dequeue ≤ c.enqueue))
    ⊎ ((r.cycle_bit ≡ flip c.bit) × (c.enqueue < r.dequeue) × (r.dequeue < r.segment_size))

-- The events between them.
pub queued : EventRing → Producer → List Trb
queued r c =
    if r.cycle_bit == c.bit
    then slice r.buf r.dequeue (c.enqueue - r.dequeue)
    else slice r.buf r.dequeue (r.segment_size - r.dequeue) ++ slice r.buf 0 c.enqueue

abbrev pub Takes : EventRing → Producer → Type 0
Takes r c = (queued r c ≡ front r ∷ queued (pop r) c) × IsBehind (pop r) c

-- Either nothing is queued, or the first event is in front and `Pop` takes it.
abbrev pub Fronts : EventRing → Producer → Type 0
Fronts r c = ((has_front r ≡ false) × (queued r c ≡ [])) ⊎ ((has_front r ≡ true) × Takes r c)

pop-inner :
    (r : EventRing) → r.dequeue + 1 ≢ r.segment_size → pop r ≡ record r { dequeue = r.dequeue + 1 }
unfolding pop
pop-inner r h = let more : (r.dequeue + 1 == r.segment_size) ≡ false = ground arith in rw more refl

pop-last :
    (r : EventRing)
    → r.dequeue + 1 ≡ r.segment_size
    → pop r ≡ record r { dequeue = 0; cycle_bit = flip r.cycle_bit }
unfolding pop
pop-last r h = let last : (r.dequeue + 1 == r.segment_size) ≡ true = ground arith in rw last refl

slice-step :
    (buf : ℕ → Trb) (d e : ℕ)
    → d < e
    → slice buf d (e - d) ≡ buf d ∷ slice buf (d + 1) (e - (d + 1))
slice-step buf d e h = let size : e - d ≡ suc (e - (d + 1)) = omega arith in ap (slice buf d) size

slice-none : (buf : ℕ → Trb) (d e : ℕ) → e ≤ d → slice buf d (e - d) ≡ []
slice-none buf d e h = let size : e - d ≡ 0 = omega arith in ap (slice buf d) size

pub queued-same :
    (r : EventRing) (c : Producer)
    → r.cycle_bit ≡ c.bit
    → queued r c ≡ slice r.buf r.dequeue (c.enqueue - r.dequeue)
unfolding queued
queued-same r c e = let own : (r.cycle_bit == c.bit) ≡ true = ground arith in rw own refl

pub queued-before :
    (r : EventRing) (c : Producer)
    → c.bit < 2
    → r.cycle_bit ≡ flip c.bit
    → queued r c ≡ slice r.buf r.dequeue (r.segment_size - r.dequeue) ++ slice r.buf 0 c.enqueue
unfolding queued
queued-before r c h e = let own : (r.cycle_bit == c.bit) ≡ false = ground arith in rw own refl

same-Takes :
    (r : EventRing) (c : Producer)
    → IsLaid r c
    → r.cycle_bit ≡ c.bit
    → r.dequeue < c.enqueue
    → Takes r c
unfolding front
same-Takes r c l same left =
    let next : EventRing = record r { dequeue = r.dequeue + 1 } in
    rw (pop-inner r (omega (arith, l.inside))) (
      queued-same r c same
          ∙ slice-step r.buf r.dequeue c.enqueue left
          ∙ ap (r.buf r.dequeue ∷◌) (sym (queued-same next c same)),
      inl (same, omega arith),
    )

before-Takes :
    (r : EventRing) (c : Producer)
    → c.bit < 2
    → r.cycle_bit ≡ flip c.bit
    → c.enqueue < r.dequeue
    → r.dequeue + 1 < r.segment_size
    → Takes r c
unfolding front
before-Takes r c h other past more =
    let next : EventRing = record r { dequeue = r.dequeue + 1 } in
    rw (pop-inner r (omega arith)) (
      queued-before r c h other
          ∙ ap (◌++ slice r.buf 0 c.enqueue)
              (slice-step r.buf r.dequeue r.segment_size (omega arith))
          ∙ ap (r.buf r.dequeue ∷◌) (sym (queued-before next c h other)),
      inr (other, omega arith, more),
    )

-- A driver that goes round.
last-Takes :
    (r : EventRing) (c : Producer)
    → c.bit < 2
    → r.cycle_bit ≡ flip c.bit
    → r.dequeue + 1 ≡ r.segment_size
    → Takes r c
unfolding front
last-Takes r c h other last =
    let next : EventRing = record r { dequeue = 0; cycle_bit = flip r.cycle_bit } in
    let back : flip r.cycle_bit ≡ c.bit = omega arith in
    let start : c.enqueue - 0 ≡ c.enqueue = omega arith in
    rw (pop-last r last) (
      queued-before r c h other
          ∙ ap (◌++ slice r.buf 0 c.enqueue) (
              slice-step r.buf r.dequeue r.segment_size (omega arith)
              ∙ ap (r.buf r.dequeue ∷◌)
                  (slice-none r.buf (r.dequeue + 1) r.segment_size (omega arith)))
          ∙ ap (λ (k : ℕ). r.buf r.dequeue ∷ slice r.buf 0 k) (sym start)
          ∙ ap (r.buf r.dequeue ∷◌) (sym (queued-same next c back)),
      inl (back, omega arith),
    )

pub queued-Fronts : (r : EventRing) (c : Producer) → IsLaid r c → IsBehind r c → Fronts r c
unfolding has_front front
queued-Fronts r c l (inl (same, behind)) = elim (Bool-cases (ltb r.dequeue c.enqueue)) [
  | inl left ↦ inr (
    ground (arith, l.inside, l.entries r.dequeue (ground (arith, l.inside))),
    same-Takes r c l same (ground arith),
  )
  | inr none_left ↦ inl (
    ground (arith, l.bit, l.inside, l.entries r.dequeue (omega (arith, l.inside))),
    queued-same r c same ∙ slice-none r.buf r.dequeue c.enqueue (ground arith),
  )
]
queued-Fronts r c l (inr (other, past, inside)) =
    let own : (cycle_of (r.buf r.dequeue) == r.cycle_bit) ≡ true =
      ground (arith, l.entries r.dequeue inside) in
    elim (Bool-cases (r.dequeue + 1 == r.segment_size)) [
      | inl last ↦ inr (own, last-Takes r c l.bit other (ground arith))
      | inr more ↦ inr (own, before-Takes r c l.bit other past (ground arith))
    ]

pub pop-IsLaid : (r : EventRing) (c : Producer) → IsLaid r c → IsLaid (pop r) c
pop-IsLaid r c l = elim (Bool-cases (r.dequeue + 1 == r.segment_size)) [
  | inl last ↦
      rw (pop-last r (ground (arith, last)))
        (record { bit = l.bit; inside = l.inside; entries = l.entries })
  | inr more ↦
      rw (pop-inner r (ground (arith, more)))
        (record { bit = l.bit; inside = l.inside; entries = l.entries })
]

pub pop-segment_size : (r : EventRing) → (pop r).segment_size ≡ r.segment_size
pop-segment_size r = elim (Bool-cases (r.dequeue + 1 == r.segment_size)) [
  | inl last ↦ rw (pop-last r (ground (arith, last))) refl
  | inr more ↦ rw (pop-inner r (ground (arith, more))) refl
]
