-- ===== src/Memory/Init.antt =====
-- `InitializeMemoryManager` of kernel/memory_manager.cpp against the firmware's memory map.
use mikansaos.Base.{
  ℕ, zero, suc, ◌+◌, ◌-◌, ◌*◌, ◌/◌, ◌%◌, ◌≤◌, ◌<◌, ltb, leb, if◌then◌else◌, ◌≡◌, refl, ap, inl, inr,
  Bool, true, false, not, ◌&&◌, ◌||◌, List, [], ◌∷◌, get_or, replicate, length-replicate,
  Bool-cases, arith,
}
use mikansaos.Base.Bits.{digit}
use mikansaos.Memory.{
  BitmapMemoryManager, MemoryDescriptor, init, get_bit, mark_allocated, is_available, physical_end,
  visit, visit_all, set_memory_range, initialize,
}
use mikansaos.Memory.Frames.{
  frames, within, get_bit-eq-digit, get_bit-mark_allocated, frames-mark_allocated,
}

-- The frame lies in a region that the map says is available.
abbrev pub usable : List MemoryDescriptor → ℕ → Bool
usable [] f = false
usable (d ∷ ds) f =
    (is_available d.type && within (d.physical_start / 4096) d.number_of_pages f) || usable ds f

-- The regions rise from `a` on, start at page boundaries, and end inside a map of `n` frames.
abbrev pub Sorted : ℕ → ℕ → List MemoryDescriptor → Type 0
Sorted n a [] = Unit {0}
Sorted n a (d ∷ ds) =
    (a ≤ d.physical_start)
    × (d.physical_start % 4096 ≡ 0)
    × (physical_end d ≤ n * 4096)
    × Sorted n (physical_end d) ds

usable_below :
    (n a f : ℕ) (ds : List MemoryDescriptor) → Sorted n a ds → f < a / 4096 → usable ds f ≡ false
usable_below n a f [] s h = refl
usable_below n a f (d ∷ ds) s h = ground (arith, usable_below n (physical_end d) f ds s.3)

get_bit-init : (lines f : ℕ) → get_bit (init lines) f ≡ false
unfolding init
get_bit-init lines f =
    ground (arith, get_bit-eq-digit (init lines) f, line lines (f / 64), zeros (f % 64))
  where
    line : (n i : ℕ) → get_or {A = ℕ} (replicate n 0) i 0 ≡ 0
    line zero i = refl
    line (suc n) zero = refl
    line (suc n) (suc i) = line n i

    zeros : (k : ℕ) → digit 0 k ≡ 0
    zeros zero = refl
    zeros (suc k) = zeros k

frames-init : (lines : ℕ) → frames (init lines) ≡ 64 * lines
unfolding init
frames-init lines = ap (λ (t : ℕ). 64 * t) (length-replicate lines 0)

-- Marking the frames from byte `e` up to byte `s`, both at page boundaries.
mark_between :
    (m : BitmapMemoryManager) (e s g : ℕ)
    → s ≤ frames m * 4096
    → e % 4096 ≡ 0
    → s % 4096 ≡ 0
    → e ≤ s
    → get_bit (mark_allocated m (e / 4096) ((s - e) / 4096)) g
      ≡ (if leb (e / 4096) g && ltb g (s / 4096) then true else get_bit m g)
mark_between m e s g fits he hs le =
    let n : e / 4096 + (s - e) / 4096 ≡ s / 4096 = omega arith in
    ground (arith, get_bit-mark_allocated m (e / 4096) ((s - e) / 4096) g, n)

-- A region's hypotheses: its place after byte `a`, where available memory ends at `e` so far.
module _ (m : BitmapMemoryManager) (e a : ℕ) (d : MemoryDescriptor) (he : e % 4096 ≡ 0) (le : e ≤ a)
    (ha : a ≤ d.physical_start) (hs : d.physical_start % 4096 ≡ 0)
    (fits : physical_end d ≤ frames m * 4096) where
  visit-available :
      (g : ℕ)
      → is_available d.type ≡ true
      → ((visit (m, e) d).1 ≡ physical_end d)
        × (frames (visit (m, e) d).0 ≡ frames m)
        × (get_bit (visit (m, e) d).0 g
            ≡ (if leb (e / 4096) g && ltb g (d.physical_start / 4096) then true else get_bit m g))
  unfolding visit
  visit-available g av = ground (
    arith,
    mark_between m e d.physical_start g,
    frames-mark_allocated m (e / 4096) ((d.physical_start - e) / 4096),
  )

  visit-reserved :
      (g : ℕ)
      → is_available d.type ≡ false
      → ((visit (m, e) d).1 ≡ e)
        × (frames (visit (m, e) d).0 ≡ frames m)
        × (get_bit (visit (m, e) d).0 g
            ≡ (if leb (e / 4096) g && ltb g (physical_end d / 4096) then true else get_bit m g))
  unfolding visit
  visit-reserved g av = ground (
    arith,
    mark_between m e (physical_end d) g,
    frames-mark_allocated m (e / 4096) ((physical_end d - e) / 4096),
  )

-- After the loop over the regions the map below `e` is as before, and from there on, up to the end
-- of available memory, the frames of available regions are free and no others.
visit_all-usable :
    (n : ℕ) (ds : List MemoryDescriptor) (m : BitmapMemoryManager) (e a f : ℕ)
    → frames m ≡ n
    → e % 4096 ≡ 0
    → e ≤ a
    → Sorted n a ds
    → ((g : ℕ) → a / 4096 ≤ g → get_bit m g ≡ false)
    → f < (visit_all (m, e) ds).1 / 4096
    → get_bit (visit_all (m, e) ds).0 f
      ≡ (if ltb f (e / 4096) then get_bit m f else not (usable ds f))
unfolding visit_all
visit_all-usable n [] m e a f hn he le s free h = ground arith
visit_all-usable n (d ∷ ds) m e a f hn he le (ha, hs, hf, rest) free h =
    elim (Bool-cases (is_available d.type)) [
      | inl av ↦
          let at = λ (g : ℕ). visit-available m e a d he le ha hs fits g av in
          let ih =
            visit_all-usable n ds (visit (m, e) d).0 (visit (m, e) d).1 (physical_end d) f
              (ground (arith, at f)) (ground (arith, at f)) (ground (arith, at f)) rest
              (λ g hg. ground (arith, at g, free g)) h in
          ground (arith, ih, at f, free f, usable_below n (physical_end d) f ds rest)
      | inr un ↦
          let at = λ (g : ℕ). visit-reserved m e a d he le ha hs fits g un in
          let ih =
            visit_all-usable n ds (visit (m, e) d).0 (visit (m, e) d).1 (physical_end d) f
              (ground (arith, at f)) (ground (arith, at f)) (ground (arith, at f)) rest
              (λ g hg. ground (arith, at g, free g)) h in
          ground (arith, ih, at f, free f, usable_below n (physical_end d) f ds rest)
    ]
  where
    fits : physical_end d ≤ frames m * 4096
    fits = rw hn hf

-- Over a map that covers the regions, given in rising order and at page boundaries, a frame below
-- the end of the range is free after initialisation exactly if an available region holds it.
pub initialize-usable :
    (lines : ℕ) (ds : List MemoryDescriptor) (f : ℕ)
    → Sorted (64 * lines) 0 ds
    → f < (initialize lines ds).range_end
    → get_bit (initialize lines ds) f ≡ not (usable ds f)
unfolding initialize set_memory_range get_bit
initialize-usable lines ds f s h =
    let marked =
      visit_all-usable (64 * lines) ds (init lines) 0 0 f (frames-init lines) refl (omega arith) s
        (λ g _. get_bit-init lines g) h in
    ground (arith, marked)
