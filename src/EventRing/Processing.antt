-- ===== src/EventRing/Processing.antt =====
-- `ProcessEvents` of kernel/usb/xhci/xhci.cpp takes every event that is in the ring.
use native.Mathlib.Nat.{mod-eq_of_lt}
use mikansaos.Base.{
  ℕ, zero, suc, ◌%◌, ◌^◌, ◌<◌, ltb, ◌≡◌, refl, ap, ◌∙◌, inl, inr, true, false, List, [], ◌∷◌,
  length, Option, some, arith,
}
use mikansaos.Ring.{Trb}
use mikansaos.EventRing.{
  EventRing, init, front, has_front, pop, Handlers, dispatch, process_event, process_events,
}
use mikansaos.EventRing.Queued.{
  Producer, IsLaid, IsBehind, queued, pop-IsLaid, pop-segment_size, queued-same, queued-Fronts,
}

-- The ring as the driver and the controller keep it.
pub record IsReady (r : EventRing) (c : Producer) : Type 0 where
  pub laid : IsLaid r c
  pub behind : IsBehind r c

pub init-IsReady :
    (r : EventRing) (size : ℕ)
    → 0 < size
    → size < 2 ^ 16
    → (let r' = (init r size true true).1 in
        let c : Producer = record { enqueue = 0; bit = 1 } in
        IsReady r' c × (queued r' c ≡ []) × (r'.segment_size ≡ size))
unfolding init
init-IsReady r size h h' =
    let c : Producer = record { enqueue = 0; bit = 1 } in
    let r' = (init r size true true).1 in
    let same : size % 2 ^ 16 ≡ size = mod-eq_of_lt h' in
    (
      record {
        laid = record {
          bit = omega arith;
          inside = omega (arith, same);
          entries = λ j k. let never : ltb j 0 ≡ false = ground arith in rw never refl;
        };
        behind = inl (refl, omega arith);
      },
      queued-same r' c refl,
      same,
    )

module _ {ℓ} {S : Type ℓ} (handlers : Handlers S) where
  -- The events, each given to its handler.
  unfoldable pub handle_all : List Trb → S → S
  handle_all [] s = s
  handle_all (t ∷ ts) s = handle_all ts (dispatch handlers t s).1

  process_events-end :
      (rounds : ℕ) (r : EventRing) (s : S)
      → has_front r ≡ false
      → process_events handlers (suc rounds) r s ≡ some (r, s)
  unfolding process_events
  process_events-end rounds r s e = rw e refl

  process_events-next :
      (rounds : ℕ) (r : EventRing) (s : S)
      → has_front r ≡ true
      → process_events handlers (suc rounds) r s
        ≡ process_events handlers rounds (pop r) (dispatch handlers (front r) s).1
  unfolding process_events process_event
  process_events-next rounds r s e = rw e refl

  -- What the loop leaves when it ends: a ring in which nothing is queued.
  abbrev pub Drains : EventRing → Producer → List Trb → S → Option (EventRing × S) → Type ℓ
  Drains r c events s result =
      (r' : EventRing) × (result ≡ some (r', handle_all events s))
      × IsReady r' c
      × (queued r' c ≡ [])
      × (r'.segment_size ≡ r.segment_size)

  pub process_events-Drains :
      (rounds : ℕ) (events : List Trb) (r : EventRing) (c : Producer) (s : S)
      → IsReady r c
      → queued r c ≡ events
      → length events < rounds
      → Drains r c events s (process_events handlers rounds r s)
  unfolding handle_all
  process_events-Drains zero events r c s ready e h = absurd (omega arith)
  process_events-Drains (suc rounds) [] r c s ready e h =
      elim (queued-Fronts r c ready.laid ready.behind) [
        | inl (none_left, empty) ↦ (r, process_events-end rounds r s none_left, ready, e, refl)
        | inr (first, taken) ↦ absurd (cc (e, taken.0))
      ]
  process_events-Drains (suc rounds) (t ∷ ts) r c s ready e h =
      elim (queued-Fronts r c ready.laid ready.behind) [
        | inl (none_left, empty) ↦ absurd (cc (e, empty))
        | inr (first, taken) ↦
            let event : front r ≡ t = cc (e, taken.0) in
            let left : queued (pop r) c ≡ ts = cc (e, taken.0) in
            let next = (dispatch handlers t s).1 in
            let later : IsReady (pop r) c = record {
              laid = pop-IsLaid r c ready.laid;
              behind = taken.1;
            } in
            let (r', ends, still, empty, size) =
              process_events-Drains rounds ts (pop r) c next later left (omega arith) in
            (
              r',
              process_events-next rounds r s first
                  ∙ ap
                      (λ (x : Trb).
                        process_events handlers rounds (pop r) (dispatch handlers x s).1)
                      event
                  ∙ ends,
              still,
              empty,
              size ∙ pop-segment_size r,
            )
      ]
