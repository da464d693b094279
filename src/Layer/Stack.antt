-- ===== src/Layer/Stack.antt =====
-- The stack of the layers of kernel/layer.cpp: what is put in can be found and taken out.
use mikansaos.Base.{
  ℕ, zero, suc, ◌+◌, ◌<◌, ◌≤◌, ◌==◌, ◌≡◌, ◌≢◌, refl, inl, inr, true, false, List, [], ◌∷◌, some,
  length, Bool-cases, arith,
}
use mikansaos.Base.Int.{pos, negsuc}
use mikansaos.Layer.{Layer, find_layer, on_stack, erase_found, insert_at, index_from}

pub erase_found-insert_at :
    (xs : List ℕ) (i layer : ℕ)
    → on_stack xs layer ≡ false
    → i ≤ length xs
    → erase_found (insert_at xs i layer) layer ≡ xs
erase_found-insert_at xs zero layer out h = ground arith
erase_found-insert_at [] (suc i) layer out h = absurd (omega arith)
erase_found-insert_at (x ∷ xs) (suc i) layer out h =
    ground (arith, out, erase_found-insert_at xs i layer (ground (arith, out)) (omega arith))

pub index_from-insert_at :
    (xs : List ℕ) (i layer k : ℕ)
    → on_stack xs layer ≡ false
    → i ≤ length xs
    → index_from k (insert_at xs i layer) layer ≡ pos (k + i)
unfolding index_from
index_from-insert_at xs zero layer k out h = ground arith
index_from-insert_at [] (suc i) layer k out h = absurd (omega arith)
index_from-insert_at (x ∷ xs) (suc i) layer k out h =
    ground (arith, out, index_from-insert_at xs i layer (k + 1) (ground (arith, out)) (omega arith))

pub length-erase_found :
    (xs : List ℕ) (layer : ℕ)
    → on_stack xs layer ≡ true
    → length (erase_found xs layer) + 1 ≡ length xs
length-erase_found [] layer h = absurd cc
length-erase_found (x ∷ xs) layer h = ground (arith, h, length-erase_found xs layer)

pub on_stack-insert_at : (xs : List ℕ) (i layer : ℕ) → on_stack (insert_at xs i layer) layer ≡ true
on_stack-insert_at xs zero layer = ground arith
on_stack-insert_at [] (suc i) layer = ground arith
on_stack-insert_at (x ∷ xs) (suc i) layer = ground (arith, on_stack-insert_at xs i layer)

-- A layer that is on the stack has an index, which is inside the stack.
pub index_from-on_stack :
    (xs : List ℕ) (layer : ℕ)
    → on_stack xs layer ≡ true
    → (i : ℕ) × (i < length xs) × ((k : ℕ) → index_from k xs layer ≡ pos (k + i))
unfolding index_from
index_from-on_stack [] layer h = absurd cc
index_from-on_stack (x ∷ xs) layer h = elim (Bool-cases (x == layer)) [
  | inl here ↦ (0, omega arith, λ k. ground (arith, here))
  | inr later ↦
      let r = index_from-on_stack xs layer (ground (arith, later, h)) in
      (suc r.0, omega (arith, r.1), λ k. ground (arith, later, r.2 (k + 1)))
]

index_from-absent :
    (xs : List ℕ) (layer k : ℕ) → on_stack xs layer ≡ false → index_from k xs layer ≡ negsuc 0
unfolding index_from
index_from-absent [] layer k h = refl
index_from-absent (x ∷ xs) layer k h = ground (arith, h, index_from-absent xs layer (k + 1))

-- An index from `k + 1` on is not `k`.
index_from-not_before : (xs : List ℕ) (layer k : ℕ) → index_from (k + 1) xs layer ≢ pos k
index_from-not_before xs layer k e = elim (Bool-cases (on_stack xs layer)) [
  | inl on ↦ (let r = index_from-on_stack xs layer on in ground (arith, e, r.2 (k + 1)))
  | inr off ↦ ground (arith, e, index_from-absent xs layer (k + 1) off)
]

-- The index of another layer after one has been put in before it.
pub index_from-insert_before :
    (xs : List ℕ) (i layer other k : ℕ)
    → layer ≢ other
    → index_from k xs other ≡ pos (k + i)
    → index_from k (insert_at xs i layer) other ≡ pos (k + i + 1)
unfolding index_from
index_from-insert_before [] zero layer other k ne h = ground (arith, h)
index_from-insert_before [] (suc i) layer other k ne h = ground (arith, h)
index_from-insert_before (x ∷ xs) zero layer other k ne h =
    let same : k + 0 ≡ k = omega arith in ground (arith, same, h, index_from-not_before xs other k)
index_from-insert_before (x ∷ xs) (suc i) layer other k ne h =
    ground (arith, h, index_from-insert_before xs i layer other (k + 1) ne)

pub on_stack-erase_other :
    (xs : List ℕ) (layer other : ℕ)
    → layer ≢ other
    → on_stack xs other ≡ true
    → on_stack (erase_found xs layer) other ≡ true
on_stack-erase_other [] layer other ne h = h
on_stack-erase_other (x ∷ xs) layer other ne h =
    ground (arith, h, on_stack-erase_other xs layer other ne)

pub erase_found-absent :
    (xs : List ℕ) (layer : ℕ) → on_stack xs layer ≡ false → erase_found xs layer ≡ xs
erase_found-absent [] layer h = refl
erase_found-absent (x ∷ xs) layer h = ground (arith, h, erase_found-absent xs layer)

pub id-find_layer : (ls : List Layer) (id : ℕ) (l : Layer) → find_layer ls id ≡ some l → l.id ≡ id
unfolding find_layer
id-find_layer [] id l h = absurd cc
id-find_layer (x ∷ xs) id l h = ground (arith, h, id-find_layer xs id l)
