-- ===== src/Ring/Consumer.antt =====
-- The controller's side of the producer ring of kernel/usb/xhci/ring.cpp, as the xHCI specification
-- describes it: it takes an entry as long as the cycle bit is its own, and at the link entry it goes
-- on at the beginning with the other cycle bit.
use mikansaos.Base.{
  ℕ, zero, suc, ◌+◌, ◌-◌, ◌*◌, ◌<◌, ◌≤◌, ◌==◌, if◌then◌else◌, ◌≡◌, ◌⊎◌, refl, ap, ◌∙◌, inl, inr,
  true, false, List, [], ◌∷◌, ◌++◌, arith,
}
use mikansaos.Ring.{Trb, Ring, flip}
use mikansaos.Ring.Slice.{slice}
use mikansaos.Ring.Laid.{cycle_of, IsLaid}

-- The entries that the controller takes from place `d` on with the cycle bit `c`, on fuel.
pub consume : (ℕ → Trb) → ℕ → ℕ → ℕ → ℕ → List Trb
consume buf last zero d c = []
consume buf last (suc fuel) d c =
    let at_link = d == last in
    let place = if at_link then 0 else d + 1 in
    let bit = if at_link then flip c else c in
    let rest = consume buf last fuel place bit in
    if cycle_of (buf d) == c then if at_link then rest else buf d ∷ rest else []

-- The entries between the controller and the write index.
pub queued : Ring → ℕ → ℕ → List Trb
queued r d c =
    if c == r.cycle_bit
    then slice r.buf d (r.write_index - d)
    else slice r.buf d (r.buf_size - 1 - d) ++ slice r.buf 0 r.write_index

-- The controller is behind the write index, in the same round or in the one before.
abbrev pub IsBehind : Ring → ℕ → ℕ → Type 0
IsBehind r d c =
    ((c ≡ r.cycle_bit) × (d ≤ r.write_index))
    ⊎ ((c ≡ flip r.cycle_bit) × (r.write_index ≤ d) × (d ≤ r.buf_size - 1))

-- There is an entry that can be written.
abbrev pub HasRoom : Ring → ℕ → ℕ → Type 0
HasRoom r d c =
    ((c ≡ r.cycle_bit) × (d ≤ r.write_index))
    ⊎ ((c ≡ flip r.cycle_bit)
        × (r.write_index < d)
        × (d ≤ r.buf_size - 1)
        × (r.write_index + 1 < r.buf_size - 1))

consume-same_round :
    (r : Ring) (n d fuel : ℕ)
    → IsLaid r
    → d + n ≡ r.write_index
    → n < fuel
    → consume r.buf (r.buf_size - 1) fuel d r.cycle_bit ≡ slice r.buf d n
unfolding consume
consume-same_round r n d zero l e h = absurd (omega arith)
consume-same_round r zero d (suc fuel) l e h =
    ground (arith, l.bit, l.inside, l.entries d (omega (arith, l.inside)))
consume-same_round r (suc n) d (suc fuel) l e h = ground (
  arith,
  l.inside,
  l.entries d (omega (arith, l.inside)),
  consume-same_round r n (d + 1) fuel l (omega arith) (omega arith),
)

consume-round_before :
    (r : Ring) (n d fuel : ℕ)
    → IsLaid r
    → d + n ≡ r.buf_size - 1
    → r.write_index ≤ d
    → n < fuel
    → consume r.buf (r.buf_size - 1) fuel d (flip r.cycle_bit)
      ≡ slice r.buf d n ++ consume r.buf (r.buf_size - 1) (fuel - (n + 1)) 0 r.cycle_bit
unfolding consume
consume-round_before r n d zero l e past h = absurd (omega arith)
consume-round_before r zero d (suc fuel) l e past h =
    let left : suc fuel - (0 + 1) ≡ fuel = omega arith in
    let here : d ≡ r.buf_size - 1 = omega arith in
    let back : flip (flip r.cycle_bit) ≡ r.cycle_bit = omega (arith, l.bit) in
    let own : (cycle_of (r.buf d) == flip r.cycle_bit) ≡ true = ground (arith, l.link, here) in
    let link : (d == r.buf_size - 1) ≡ true = ground (arith, here) in
    rw (own, link, back, left) refl
consume-round_before r (suc n) d (suc fuel) l e past h =
    let left : suc fuel - (suc n + 1) ≡ fuel - (n + 1) = omega arith in
    let own : (cycle_of (r.buf d) == flip r.cycle_bit) ≡ true =
      ground (arith, l.entries d (omega arith)) in
    let inner : (d == r.buf_size - 1) ≡ false = ground arith in
    let rest = consume-round_before r n (d + 1) fuel l (omega arith) (omega arith) (omega arith) in
    rw (own, inner, left) (ap (r.buf d ∷◌) rest)

-- With fuel for two rounds the controller takes exactly the entries that are queued.
pub consume-queued :
    (r : Ring) (d c : ℕ)
    → IsLaid r
    → IsBehind r d c
    → consume r.buf (r.buf_size - 1) (2 * r.buf_size) d c ≡ queued r d c
unfolding queued
consume-queued r d c l (inl (same, behind)) =
    let own : (c == r.cycle_bit) ≡ true = ground arith in
    rw (own, same)
      (consume-same_round r (r.write_index - d) d (2 * r.buf_size) l (omega arith)
        (omega (arith, l.inside)))
consume-queued r d c l (inr (other, past, inside)) =
    let own : (c == r.cycle_bit) ≡ false = ground (arith, l.bit) in
    let n = r.buf_size - 1 - d in
    rw (own, other)
      (consume-round_before r n d (2 * r.buf_size) l (omega arith) past (omega (arith, l.inside))
        ∙ ap (slice r.buf d n ++◌) (
            consume-same_round r r.write_index 0 (2 * r.buf_size - (n + 1)) l (omega arith)
              (omega (arith, l.inside))))
