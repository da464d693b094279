-- ===== src/Fat/File/Turns.antt =====
-- Calls of `Read` of kernel/fat.cpp one after the other.
use mikansaos.Base.{
  ℕ, ◌+◌, ◌-◌, ◌<◌, ◌≤◌, ◌≡◌, ◌≢◌, inl, List, [], ◌∷◌, ◌++◌, length, take, drop, refl, ap, ◌∙◌,
  arith, length-drop, min, Option, some, none,
}
use mikansaos.Base.Slices.{take-take-drop}
use mikansaos.Fat.Table.Chains.{Linked}
use mikansaos.Fat.File.{Volume, DirectoryEntry, first_cluster, FileDescriptor, new_descriptor, read}
use mikansaos.Fat.File.Stream.{content, IsFilled}
use mikansaos.Fat.File.Reading.{IsAt, read-Reads}

-- One `Read` after the other, of these lengths: all the bytes in their order.
pub read_in_turn : Volume → DirectoryEntry → FileDescriptor → List ℕ → Option (List ℕ)
read_in_turn v e fd [] = some []
read_in_turn v e fd (len ∷ lens) = elim (read v e fd len) [
  | none ↦ none
  | some (bytes, fd') ↦ elim (read_in_turn v e fd' lens) [
    | none ↦ none
    | some later ↦ some (bytes ++ later)
  ]
]

abbrev pub sum : List ℕ → ℕ
sum [] = 0
sum (n ∷ ns) = n + sum ns

read_in_turn-later :
    (v : Volume) (e : DirectoryEntry) (fd fd' : FileDescriptor) (len : ℕ)
    (lens bytes later : List ℕ)
    → read v e fd len ≡ some (bytes, fd')
    → read_in_turn v e fd' lens ≡ some later
    → read_in_turn v e fd (len ∷ lens) ≡ some (bytes ++ later)
unfolding read_in_turn
read_in_turn-later v e fd fd' len lens bytes later h h' = rw (h, read_in_turn, h') refl

read_in_turn-rest :
    (v : Volume) (e : DirectoryEntry) (fd : FileDescriptor) (lens rest : List ℕ)
    → IsAt v e fd rest
    → fd.rd_off ≤ e.file_size
    → e.file_size - fd.rd_off ≤ length rest
    → read_in_turn v e fd lens ≡ some (take (min (sum lens) (e.file_size - fd.rd_off)) rest)
unfolding read_in_turn
read_in_turn-rest v e fd [] rest at inside has = ground arith
read_in_turn-rest v e fd (len ∷ lens) rest at inside has =
    let m = min len (e.file_size - fd.rd_off) in
    let r = read-Reads v e fd len rest at inside has in
    let size = length-drop m rest in
    let h =
      read_in_turn-rest v e r.fd' lens (drop m rest) r.later (omega (arith, r.moves))
        (omega (arith, r.moves, size)) in
    let left = min (sum lens) (e.file_size - r.fd'.rd_off) in
    let all : m + left ≡ min (len + sum lens) (e.file_size - fd.rd_off) = omega (arith, r.moves) in
    read_in_turn-later v e fd r.fd' len lens _ _ r.returns h
    ∙ ap some (take-take-drop m left rest ∙ ap (λ (k : ℕ). take k rest) all)

-- A new descriptor of a file whose chain `first_cluster e ∷ cs` holds at least the bytes that its
-- size promises: one `Read` after the other gives the bytes of the chain in their order, none left
-- out and none twice, as many as were asked for in all or as the file's size.
pub read_in_turn-content :
    (v : Volume) (e : DirectoryEntry) (cs lens : List ℕ)
    → 0 < v.bytes_per_cluster
    → first_cluster e ≢ 0
    → Linked v.fat (first_cluster e) cs
    → IsFilled v (first_cluster e ∷ cs)
    → e.file_size ≤ length (content v (first_cluster e ∷ cs))
    → read_in_turn v e new_descriptor lens
      ≡ some (take (min (sum lens) e.file_size) (content v (first_cluster e ∷ cs)))
read_in_turn-content v e cs lens pos used linked filled has =
    let at : IsAt v e new_descriptor (content v (first_cluster e ∷ cs)) = inl (record {
      cs = cs;
      used = used;
      linked = linked;
      filled = filled;
      within = pos;
      rest_eq = refl;
    }) in
    let size : e.file_size - 0 ≡ e.file_size = omega arith in
    read_in_turn-rest v e new_descriptor lens (content v (first_cluster e ∷ cs)) at (omega arith)
      (omega arith)
    ∙ ap (λ (k : ℕ). some (take (min (sum lens) k) (content v (first_cluster e ∷ cs)))) size
