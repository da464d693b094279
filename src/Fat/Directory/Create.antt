-- ===== src/Fat/Directory/Create.antt =====
-- `CreateFile` and `FindFile` of kernel/fat.cpp: a file that is created is found.
use mikansaos.Base.{
  ℕ, zero, suc, ◌-◌, ◌<◌, ◌≡◌, ◌≢◌, refl, ap, ◌∙◌, sym, inl, inr, Option-cases, true, false, ◌==◌,
  List, [], ◌∷◌, length, get_or, set, Option, none, some, arith,
}
use mikansaos.Base.Maps.{update_self, update_ne}
use mikansaos.Fat.Table.{end_of_cluster_chain, next_cluster}
use mikansaos.Fat.Table.Chains.{Linked, next-link, inner-not_end}
use mikansaos.Fat.Names.{name_is_equal}
use mikansaos.Fat.Directory.{
  NamedEntry, Directories, Place, put_entry, Scan, not_found, found, passed, scan, find_in_chain,
  free_slot, allocate_entry,
}
use mikansaos.Fat.Directory.Lookup.{hit, free_slot-scan, scan-full}

abbrev pub or_place : Option ℕ → ℕ → Option Place → Option Place
or_place (some i) c rest = some (record { cluster = c; index = i })
or_place none c rest = rest

-- The first free or deleted entry along a chain.
unfoldable pub room : Directories → ℕ → List ℕ → Option Place
room d c [] = or_place (free_slot (d.entries c) 0) c none
room d c (x ∷ xs) = or_place (free_slot (d.entries c) 0) c (room d x xs)

room-here :
    (d : Directories) (c : ℕ) (cs : List ℕ) (i : ℕ)
    → free_slot (d.entries c) 0 ≡ some i
    → room d c cs ≡ some (record { cluster = c; index = i })
unfolding room
room-here d c [] i e = ap (λ (o : Option ℕ). or_place o c none) e
room-here d c (x ∷ xs) i e = ap (λ (o : Option ℕ). or_place o c (room d x xs)) e

room-later :
    (d : Directories) (c x : ℕ) (xs : List ℕ)
    → free_slot (d.entries c) 0 ≡ none
    → room d c (x ∷ xs) ≡ room d x xs
unfolding room
room-later d c x xs e = ap (λ (o : Option ℕ). or_place o c (room d x xs)) e

room-last : (d : Directories) (c : ℕ) → free_slot (d.entries c) 0 ≡ none → room d c [] ≡ none
unfolding room
room-last d c e = ap (λ (o : Option ℕ). or_place o c none) e

-- A place that is known to be the chain's first free one is in the first cluster that has any.
room-at :
    (d : Directories) (c : ℕ) (cs : List ℕ) (i : ℕ) (p : Place)
    → free_slot (d.entries c) 0 ≡ some i
    → room d c cs ≡ some p
    → p ≡ record { cluster = c; index = i }
room-at d c cs i p free r =
    let same : some p ≡ some (record { cluster = c; index = i }) =
      sym r ∙ room-here d c cs i free in
    cc

pub room-free :
    (cs : List ℕ) (d : Directories) (c : ℕ) (p : Place)
    → room d c cs ≡ some p
    → free_slot (d.entries p.cluster) 0 ≡ some p.index
room-free [] d c p r = elim (Option-cases (free_slot (d.entries c) 0)) [
  | inr (i, free) ↦ rw (room-at d c [] i p free r) free
  | inl full ↦ absurd (ground (arith, r, room-last d c full))
]
room-free (x ∷ xs) d c p r = elim (Option-cases (free_slot (d.entries c) 0)) [
  | inr (i, free) ↦ rw (room-at d c (x ∷ xs) i p free r) free
  | inl full ↦ room-free xs d x p (sym (room-later d c x xs full) ∙ r)
]

-- What a round of `find_in_chain` does with a cluster's scan.
find-found :
    (fuel : ℕ) (d : Directories) (c i : ℕ) (elem : List ℕ)
    → c ≢ end_of_cluster_chain
    → scan (d.entries c) elem 0 ≡ found i
    → find_in_chain (suc fuel) d c elem ≡ some (some (record { cluster = c; index = i }))
unfolding find_in_chain
find-found fuel d c i elem h e = rw e (ground arith)

find-passed :
    (fuel : ℕ) (d : Directories) (c : ℕ) (elem : List ℕ)
    → c ≢ end_of_cluster_chain
    → scan (d.entries c) elem 0 ≡ passed
    → find_in_chain (suc fuel) d c elem ≡ find_in_chain fuel d (next_cluster d.fat c) elem
unfolding find_in_chain
find-passed fuel d c elem h e = rw e (ground arith)

find-no_hit :
    (fuel : ℕ) (d : Directories) (c : ℕ) (elem : List ℕ)
    → c ≢ end_of_cluster_chain
    → find_in_chain (suc fuel) d c elem ≡ some none
    → hit (scan (d.entries c) elem 0) ≡ false
find-no_hit fuel d c elem h e =
    no_hit (scan (d.entries c) elem 0) (λ i s. find-found fuel d c i elem h s)
  where
    no_hit :
        (r : Scan)
        → ((i : ℕ)
            → r ≡ found i
            → find_in_chain (suc fuel) d c elem ≡ some (some (record { cluster = c; index = i })))
        → hit r ≡ false
    no_hit (found i) g = absurd (ground (arith, e, g i refl))
    no_hit not_found g = refl
    no_hit passed g = refl

put_entry-here :
    (d : Directories) (c i : ℕ) (e : NamedEntry)
    → (put_entry d (record { cluster = c; index = i }) e).entries c ≡ set (d.entries c) i e
put_entry-here d c i e = update_self d.entries c (set (d.entries c) i e)

put_entry-elsewhere :
    (d : Directories) (p : Place) (e : NamedEntry) (c : ℕ)
    → p.cluster ≢ c
    → (put_entry d p e).entries c ≡ d.entries c
put_entry-elsewhere d p e c h =
    update_ne d.entries p.cluster c (set (d.entries p.cluster) p.index e) h

find-here :
    (fuel : ℕ) (d : Directories) (c i : ℕ) (elem : List ℕ) (e : NamedEntry)
    → c ≢ end_of_cluster_chain
    → free_slot (d.entries c) 0 ≡ some i
    → hit (scan (d.entries c) elem 0) ≡ false
    → name_is_equal e.name elem ≡ true
    → (get_or e.name 0 0 == 0) ≡ false
    → (let p : Place = record { cluster = c; index = i } in
        find_in_chain (suc fuel) (put_entry d p e) c elem ≡ some (some p))
find-here fuel d c i elem e h free passes m z =
    let p : Place = record { cluster = c; index = i } in
    let zero_off : i - 0 ≡ i = omega arith in
    find-found fuel (put_entry d p e) c i elem h (
      ap (λ (es : List NamedEntry). scan es elem 0) (put_entry-here d c i e)
      ∙ sym (ap (λ (j : ℕ). scan (set (d.entries c) j e) elem 0) zero_off)
      ∙ free_slot-scan (d.entries c) elem 0 i e free passes m z)

-- An entry that is put into the first free slot of a chain is found there, if its name was not found
-- before.
pub find_in_chain-put_entry :
    (cs : List ℕ) (fuel : ℕ) (d : Directories) (c : ℕ) (elem : List ℕ) (p : Place) (e : NamedEntry)
    → c ≢ end_of_cluster_chain
    → Linked d.fat c cs
    → length cs < fuel
    → room d c cs ≡ some p
    → find_in_chain fuel d c elem ≡ some none
    → name_is_equal e.name elem ≡ true
    → (get_or e.name 0 0 == 0) ≡ false
    → find_in_chain fuel (put_entry d p e) c elem ≡ some (some p)
find_in_chain-put_entry cs zero d c elem p e h l k r f m z = absurd (omega arith)
find_in_chain-put_entry [] (suc fuel) d c elem p e h l k r f m z =
    elim (Option-cases (free_slot (d.entries c) 0)) [
      | inr (i, free) ↦
          rw (room-at d c [] i p free r)
            (find-here fuel d c i elem e h free (find-no_hit fuel d c elem h f) m z)
      | inl full ↦ absurd (ground (arith, r, room-last d c full))
    ]
find_in_chain-put_entry (x ∷ xs) (suc fuel) d c elem p e h l k r f m z =
    elim (Option-cases (free_slot (d.entries c) 0)) [
      | inr (i, free) ↦
          rw (room-at d c (x ∷ xs) i p free r)
            (find-here fuel d c i elem e h free (find-no_hit fuel d c elem h f) m z)
      | inl full ↦
          let later = sym (room-later d c x xs full) ∙ r in
          let other : p.cluster ≢ c = λ q. ground (arith, full, room-free xs d x p later, q) in
          let passes = scan-full (d.entries c) elem 0 full (find-no_hit fuel d c elem h f) in
          let next = next-link d.fat c x xs l in
          let rest : find_in_chain fuel d x elem ≡ some none =
            sym (
              find-passed fuel d c elem h passes ∙ ap (λ (y : ℕ). find_in_chain fuel d y elem) next)
            ∙ f in
          find-passed fuel (put_entry d p e) c elem h (
            ap (λ (es : List NamedEntry). scan es elem 0) (put_entry-elsewhere d p e c other)
            ∙ passes)
          ∙ ap (λ (y : ℕ). find_in_chain fuel (put_entry d p e) y elem) next
          ∙ find_in_chain-put_entry xs fuel d x elem p e (inner-not_end x l.2) l.3 (omega arith)
              later rest m z
    ]

allocate_entry-free :
    (fuel : ℕ) (d : Directories) (c i : ℕ)
    → free_slot (d.entries c) 0 ≡ some i
    → allocate_entry (suc fuel) d c ≡ some (d, record { cluster = c; index = i })
unfolding allocate_entry
allocate_entry-free fuel d c i e = ground (arith, e)

allocate_entry-full :
    (fuel : ℕ) (d : Directories) (c x : ℕ)
    → free_slot (d.entries c) 0 ≡ none
    → next_cluster d.fat c ≡ x
    → x ≢ end_of_cluster_chain
    → allocate_entry (suc fuel) d c ≡ allocate_entry fuel d x
unfolding allocate_entry
allocate_entry-full fuel d c x e n h = ground (arith, e, n, h)

-- `AllocateEntry` takes the first free slot of a chain that has one.
pub allocate_entry-room :
    (cs : List ℕ) (fuel : ℕ) (d : Directories) (c : ℕ) (p : Place)
    → Linked d.fat c cs
    → length cs < fuel
    → room d c cs ≡ some p
    → allocate_entry fuel d c ≡ some (d, p)
allocate_entry-room cs zero d c p l k r = absurd (omega arith)
allocate_entry-room [] (suc fuel) d c p l k r = elim (Option-cases (free_slot (d.entries c) 0)) [
  | inr (i, free) ↦
      allocate_entry-free fuel d c i free
      ∙ ap (λ (q : Place). some (d, q)) (sym (room-at d c [] i p free r))
  | inl full ↦ absurd (ground (arith, r, room-last d c full))
]
allocate_entry-room (x ∷ xs) (suc fuel) d c p l k r =
    elim (Option-cases (free_slot (d.entries c) 0)) [
      | inr (i, free) ↦
          allocate_entry-free fuel d c i free
          ∙ ap (λ (q : Place). some (d, q)) (sym (room-at d c (x ∷ xs) i p free r))
      | inl full ↦
          let later = sym (room-later d c x xs full) ∙ r in
          let next = next-link d.fat c x xs l in
          allocate_entry-full fuel d c x full next (inner-not_end x l.2)
          ∙ allocate_entry-room xs fuel d x p l.3 (omega arith) later
    ]
