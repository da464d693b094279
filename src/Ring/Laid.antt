-- ===== src/Ring/Laid.antt =====
-- The cycle bits in the producer ring of kernel/usb/xhci/ring.cpp.
use Prim.Native.Nat.{bit_and}
use mikansaos.Base.{
  ℕ, ◌+◌, ◌-◌, ◌%◌, ◌<◌, ◌≤◌, ◌==◌, ltb, if◌then◌else◌, ◌≡◌, ◌≢◌, refl, inl, inr, true, false,
  Bool-cases, arith,
}
use mikansaos.Base.Bits.{bit_or_lowest, bit_and_lowest}
use mikansaos.Base.Maps.{update}
use mikansaos.Ring.{Trb, Ring, stamp, link_trb, flip, push, init}

abbrev pub cycle_of : Trb → ℕ
cycle_of t = t.word3 % 2

pub cycle-stamp : (t : Trb) (c : ℕ) → c < 2 → cycle_of (stamp t c) ≡ c
unfolding stamp
cycle-stamp t c h =
    omega (arith, bit_or_lowest (bit_and t.word3 0xfffffffe) c, bit_and_lowest t.word3 0xfffffffe)

-- The entries before the write index carry the cycle bit, those from it on and the link entry the
-- other one.
pub record IsLaid (r : Ring) : Type 0 where
  pub bit : r.cycle_bit < 2
  pub inside : r.write_index < r.buf_size - 1
  pub entries :
      (j : ℕ)
      → j < r.buf_size - 1
      → cycle_of (r.buf j) ≡ (if ltb j r.write_index then r.cycle_bit else flip r.cycle_bit)
  pub link : cycle_of (r.buf (r.buf_size - 1)) ≡ flip r.cycle_bit

pub push-inner :
    (address : ℕ) (r : Ring) (trb : Trb)
    → r.write_index + 1 ≢ r.buf_size - 1
    → push address r trb ≡ record r {
      buf = update r.buf r.write_index (stamp trb r.cycle_bit);
      write_index = r.write_index + 1;
    }
unfolding push
push-inner address r trb h =
    let more : (r.write_index + 1 == r.buf_size - 1) ≡ false = ground arith in rw more refl

pub push-last :
    (address : ℕ) (r : Ring) (trb : Trb)
    → r.write_index + 1 ≡ r.buf_size - 1
    → push address r trb ≡ record r {
      buf =
          update
            (update r.buf r.write_index (stamp trb r.cycle_bit))
            (r.write_index + 1)
            (stamp (link_trb address) r.cycle_bit);
      write_index = 0;
      cycle_bit = flip r.cycle_bit;
    }
unfolding push
push-last address r trb h =
    let last : (r.write_index + 1 == r.buf_size - 1) ≡ true = ground arith in rw last refl

pub cycle-update :
    (buf : ℕ → Trb) (i j : ℕ) (t : Trb)
    → cycle_of (update buf i t j) ≡ (if i == j then cycle_of t else cycle_of (buf j))
cycle-update buf i j t = ground arith

-- The step keeps the cycle bits laid out in this way.
pub push-IsLaid : (address : ℕ) (r : Ring) (trb : Trb) → IsLaid r → IsLaid (push address r trb)
push-IsLaid address r trb l = elim (Bool-cases (r.write_index + 1 == r.buf_size - 1)) [
  | inr more ↦
      let s = cycle-stamp trb r.cycle_bit l.bit in
      rw (push-inner address r trb (ground (arith, more))) (record {
        bit = l.bit;
        inside = ground (arith, more, l.inside);
        entries = λ j h.
            ground
              (arith, s, l.entries j h, cycle-update r.buf r.write_index j (stamp trb r.cycle_bit));
        link = ground (
          arith,
          l.inside,
          l.link,
          cycle-update r.buf r.write_index (r.buf_size - 1) (stamp trb r.cycle_bit),
        );
      })
  | inl last ↦
      let s = cycle-stamp trb r.cycle_bit l.bit in
      let t = cycle-stamp (link_trb address) r.cycle_bit l.bit in
      let first = update r.buf r.write_index (stamp trb r.cycle_bit) in
      let at = λ (j : ℕ).
        cycle-update first (r.write_index + 1) j (stamp (link_trb address) r.cycle_bit) in
      let before = λ (j : ℕ). cycle-update r.buf r.write_index j (stamp trb r.cycle_bit) in
      rw (push-last address r trb (ground (arith, last))) (record {
        bit = omega (arith, l.bit);
        inside = omega (arith, l.inside);
        entries = λ j h. ground (arith, last, l.bit, s, l.entries j h, at j, before j);
        link = ground (arith, last, l.bit, t, at (r.buf_size - 1));
      })
]

-- The layout after `Initialize` of a ring for at least one entry and the link.
pub init-IsLaid : (r : Ring) (buf_size : ℕ) → 2 ≤ buf_size → IsLaid (init r buf_size true).1
unfolding init
init-IsLaid r buf_size h = record {
  bit = omega arith;
  inside = omega arith;
  entries = λ j _. ground arith;
  link = omega arith;
}
