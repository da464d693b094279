-- ===== src/Fat/Directory/Lookup.antt =====
-- `FindFile` of kernel/fat.cpp in one directory.
use mikansaos.Base.{
  ℕ, suc, ◌+◌, ◌-◌, ◌≤◌, ◌≡◌, refl, ap, ◌∙◌, inl, inr, Bool-cases, Bool, true, false, ◌||◌, ◌==◌,
  List, [], ◌∷◌, get_or, set, Option, none, some, arith,
}
use mikansaos.Fat.Names.{name_is_equal}
use mikansaos.Fat.Directory.{
  NamedEntry, Directories, Place, Scan, not_found, found, passed, scan, free_slot, deleted,
}

-- The first free or deleted entry along a chain.
pub room : Directories → ℕ → List ℕ → Option Place
room d c [] = elim (free_slot (d.entries c) 0) [
  | some i ↦ some (record { cluster = c; index = i })
  | none ↦ none
]
room d c (x ∷ xs) =
    let rest = room d x xs in
    elim (free_slot (d.entries c) 0) [
      | some i ↦ some (record { cluster = c; index = i })
      | none ↦ rest
    ]

abbrev pub hit : Scan → Bool
hit (found i) = true
hit not_found = false
hit passed = false

free_slot-le : (es : List NamedEntry) (i k : ℕ) → free_slot es i ≡ some k → i ≤ k
unfolding free_slot
free_slot-le [] i k f = absurd (ground (arith, f))
free_slot-le (x ∷ es) i k f =
    elim (Bool-cases (get_or x.name 0 0 == 0 || get_or x.name 0 0 == deleted)) [
      | inl free ↦ ground (arith, f, free)
      | inr used ↦
          let later : i + 1 ≤ k = free_slot-le es (i + 1) k (ground (arith, f, used)) in omega arith
    ]

set-later :
    (x e : NamedEntry) (es : List NamedEntry) (i k : ℕ)
    → i + 1 ≤ k
    → set (x ∷ es) (k - i) e ≡ x ∷ set es (k - (i + 1)) e
set-later x e es i k h =
    let next : k - i ≡ suc (k - (i + 1)) = omega arith in ap (λ (j : ℕ). set (x ∷ es) j e) next

-- A free slot behind entries that do not match: what is put there is found, if it matches.
pub free_slot-scan :
    (es : List NamedEntry) (elem : List ℕ) (i k : ℕ) (e : NamedEntry)
    → free_slot es i ≡ some k
    → hit (scan es elem i) ≡ false
    → name_is_equal e.name elem ≡ true
    → (get_or e.name 0 0 == 0) ≡ false
    → scan (set es (k - i) e) elem i ≡ found k
unfolding free_slot scan
free_slot-scan [] elem i k e f n m z = absurd (ground (arith, f))
free_slot-scan (x ∷ es) elem i k e f n m z =
    elim (Bool-cases (get_or x.name 0 0 == 0 || get_or x.name 0 0 == deleted)) [
      | inl free ↦
          let here : i ≡ k = ground (arith, f, free) in
          let same : k - i ≡ 0 = omega arith in
          ap (λ (j : ℕ). scan (set (x ∷ es) j e) elem i) same ∙ rw (z, m) (ap found here)
      | inr used ↦
          let rest : free_slot es (i + 1) ≡ some k = ground (arith, f, used) in
          let le = free_slot-le es (i + 1) k rest in
          let passes : hit (scan es elem (i + 1)) ≡ false = ground (arith, n, used) in
          let begins : (get_or x.name 0 0 == 0) ≡ false = ground (arith, used) in
          let differs : name_is_equal x.name elem ≡ false = ground (arith, n, used) in
          ap (λ (l : List NamedEntry). scan l elem i) (set-later x e es i k le)
          ∙ rw (begins, differs) (free_slot-scan es elem (i + 1) k e rest passes m z)
    ]

-- Where no slot is free and nothing matches, the whole cluster is passed.
pub scan-full :
    (es : List NamedEntry) (elem : List ℕ) (i : ℕ)
    → free_slot es i ≡ none
    → hit (scan es elem i) ≡ false
    → scan es elem i ≡ passed
unfolding free_slot scan
scan-full [] elem i f n = refl
scan-full (x ∷ es) elem i f n = ground (arith, f, n, scan-full es elem (i + 1))
