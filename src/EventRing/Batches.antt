-- ===== src/EventRing/Batches.antt =====
-- `ProcessEvents` of kernel/usb/xhci/xhci.cpp with the event ring of kernel/usb/xhci/ring.cpp, which the
-- controller goes on to fill.
use mikansaos.Base.{
  ℕ, suc, ◌+◌, ◌^◌, ◌<◌, ◌≡◌, refl, sym, ap, ◌∙◌, true, List, [], ◌∷◌, ◌++◌, length, length-append,
  Option, none, some, arith,
}
use mikansaos.Base.Slices.{append_nil, append_assoc}
use mikansaos.Ring.{Trb, stamp}
use mikansaos.EventRing.{EventRing, init, Handlers, dispatch, process_events}
use mikansaos.EventRing.Queued.{Producer, next_place, post, queued}
use mathlib.Core.Path.{subst}
use mikansaos.EventRing.Processing.{IsReady, init-IsReady, handle_all, process_events-Drains}
use mikansaos.EventRing.Posting.{post-IsLaid, post-Adds}

-- Events that the controller writes one after the other, with the cycle bits that they get, and where
-- the controller is then.
pub post_all : EventRing → Producer → List Trb → EventRing
post_all r c [] = r
post_all r c (t ∷ ts) = post_all (post r c t) (next_place r.segment_size c) ts

pub after : ℕ → Producer → List Trb → Producer
after size c [] = c
after size c (t ∷ ts) = after size (next_place size c) ts

unfoldable pub stamp_all : ℕ → Producer → List Trb → List Trb
stamp_all size c [] = []
stamp_all size c (t ∷ ts) = stamp t c.bit ∷ stamp_all size (next_place size c) ts

post_all-adds :
    (ts : List Trb) (r : EventRing) (c : Producer)
    → IsReady r c
    → length (queued r c) + length ts < r.segment_size
    → (let c' = after r.segment_size c ts in
        IsReady (post_all r c ts) c'
        × (queued (post_all r c ts) c' ≡ queued r c ++ stamp_all r.segment_size c ts)
        × ((post_all r c ts).segment_size ≡ r.segment_size))
unfolding post_all after stamp_all post
post_all-adds [] r c ready room = (ready, sym (append_nil (queued r c)), refl)
post_all-adds (t ∷ ts) r c ready room =
    let one = post-Adds r c t ready.laid ready.behind (omega arith) in
    let rest =
      post_all-adds ts (post r c t) (next_place r.segment_size c)
        (record { laid = post-IsLaid r c t ready.laid; behind = one.1 })
        (omega (arith, ap length one.0, length-append (queued r c) (stamp t c.bit ∷ []))) in
    (
      rest.0,
      rest.1
          ∙ ap (◌++ stamp_all r.segment_size (next_place r.segment_size c) ts) one.0
          ∙ append_assoc (queued r c) (stamp t c.bit ∷ []) _,
      rest.2,
    )

module _ {ℓ} {S : Type ℓ} where
  abbrev pub go_on : (EventRing → S → Option S) → Option (EventRing × S) → Option S
  go_on next none = none
  go_on next (some (r, s)) = next r s

module _ {ℓ} {S : Type ℓ} (handlers : Handlers S) where
  -- Batches of events that the controller writes, each of which is processed before the next one. The
  -- state of the driver at the end, `none` where a loop does not end within a round for each place.
  unfoldable pub run : List (List Trb) → EventRing → Producer → S → Option S
  run [] r c s = some s
  run (ts ∷ batches) r c s =
      go_on (λ r' s'. run batches r' (after r.segment_size c ts) s')
        (process_events handlers r.segment_size (post_all r c ts) s)

-- The events of all batches with the cycle bits that they get.
unfoldable pub sent : ℕ → Producer → List (List Trb) → List Trb
sent size c [] = []
sent size c (ts ∷ batches) = stamp_all size c ts ++ sent size (after size c ts) batches

-- No batch fills the ring.
unfoldable pub AllFit : ℕ → List (List Trb) → Type 0
AllFit size [] = Unit
AllFit size (ts ∷ batches) = (length ts < size) × AllFit size batches

length-stamp_all :
    (size : ℕ) (c : Producer) (ts : List Trb) → length (stamp_all size c ts) ≡ length ts
unfolding stamp_all
length-stamp_all size c [] = refl
length-stamp_all size c (t ∷ ts) = ap suc (length-stamp_all size (next_place size c) ts)

module _ {ℓ} {S : Type ℓ} (handlers : Handlers S) where
  handle_all-append :
      (xs ys : List Trb) (s : S)
      → handle_all handlers (xs ++ ys) s ≡ handle_all handlers ys (handle_all handlers xs s)
  unfolding handle_all
  handle_all-append [] ys s = refl
  handle_all-append (x ∷ xs) ys s = handle_all-append xs ys (dispatch handlers x s).1

  run-batch :
      (ts : List Trb) (batches : List (List Trb)) (r r' : EventRing) (c : Producer) (s s' : S)
      → process_events handlers r.segment_size (post_all r c ts) s ≡ some (r', s')
      → run handlers (ts ∷ batches) r c s ≡ run handlers batches r' (after r.segment_size c ts) s'
  unfolding run
  run-batch ts batches r r' c s s' e =
      ap (go_on (λ r' s'. run handlers batches r' (after r.segment_size c ts) s')) e

  run-ready :
      (batches : List (List Trb)) (r : EventRing) (c : Producer) (s : S)
      → IsReady r c
      → queued r c ≡ []
      → AllFit r.segment_size batches
      → run handlers batches r c s ≡ some (handle_all handlers (sent r.segment_size c batches) s)
  unfolding run sent handle_all AllFit
  run-ready [] r c s ready empty fits = refl
  run-ready (ts ∷ batches) r c s ready empty fits =
      let size = r.segment_size in
      let c' = after size c ts in
      let events = stamp_all size c ts in
      let s' = handle_all handlers events s in
      let (full, holds, kept) =
        post_all-adds ts r c ready (omega (arith, ap length empty, fits.0)) in
      let (r', ends, ready', empty', size') =
        process_events-Drains handlers size events (post_all r c ts) c' s full
          (holds ∙ ap (◌++ events) empty) (omega (arith, length-stamp_all size c ts, fits.0)) in
      let same : r'.segment_size ≡ size = size' ∙ kept in
      let fits' = subst (λ (n : ℕ). AllFit n batches) (sym same) fits.1 in
      run-batch ts batches r r' c s s' ends
      ∙ run-ready batches r' c' s' ready' empty' fits'
      ∙ ap (λ (n : ℕ). some (handle_all handlers (sent n c' batches) s')) same
      ∙ ap some (sym (handle_all-append events (sent size c' batches) s))

  -- After `Initialize` with memory for 1 to `2 ^ 16 - 1` entries, let the controller write any number of
  -- batches, each with fewer events than the ring has entries, and let `ProcessEvents` run behind each
  -- of them. Then each call of `ProcessEvents` ends, and the driver's state at the end is the one that
  -- the handlers of all events leave, each of them called once, in the order in which the events were
  -- written, however often the ring was gone round.
  pub run-sent :
      (batches : List (List Trb)) (r : EventRing) (size : ℕ) (s : S)
      → 0 < size
      → size < 2 ^ 16
      → AllFit size batches
      → (let c : Producer = record { enqueue = 0; bit = 1 } in
          run handlers batches (init r size true true).1 c s
          ≡ some (handle_all handlers (sent size c batches) s))
  run-sent batches r size s h h' fits =
      let c : Producer = record { enqueue = 0; bit = 1 } in
      let (ready, empty, same) = init-IsReady r size h h' in
      let fits' = subst (λ (n : ℕ). AllFit n batches) (sym same) fits in
      run-ready batches (init r size true true).1 c s ready empty fits'
      ∙ ap (λ (n : ℕ). some (handle_all handlers (sent n c batches) s)) same
