-- ===== src/Fat/Writing/Along.antt =====
-- The loop of `Write` of kernel/fat.cpp along a chain that is long enough.
use mikansaos.Base.{
  ℕ, ◌+◌, ◌-◌, ◌≤◌, ◌≡◌, ◌≢◌, refl, sym, ap, ◌∙◌, false, List, [], ◌∷◌, ◌++◌, Option, some, length,
  arith,
}
use mikansaos.Base.Maps.{update_self, update_ne}
use mikansaos.Fat.Table.Chains.{has}
use mikansaos.Fat.File.{Volume}
use mikansaos.Fat.File.Stream.{content, IsFilled}
use mikansaos.Fat.Writing.{put, store}
use mikansaos.Fat.Writing.Put.{put-append_left, put-append_right, put-put}

-- No cluster stands in the chain twice.
abbrev pub AreDistinct : List ℕ → Type 0
AreDistinct [] = Unit {0}
AreDistinct (c ∷ cs) = (has cs c ≡ false) × AreDistinct cs

-- The bytes that the clusters hold.
abbrev pub room : ℕ → List ℕ → ℕ
room size [] = 0
room size (c ∷ cs) = size + room size cs

-- The loop has written the bytes from `total` to `total'` of the buffer at `off` of the chain, and
-- nowhere else.
pub record Writes (buf : ℕ → ℕ) (len : ℕ) (v : Volume) (total c off : ℕ) (cs : List ℕ)
    (r : Option (Volume × ℕ × ℕ × ℕ)) : Type 0 where
  pub v' : Volume
  pub total' : ℕ
  pub end_cluster : ℕ
  pub end_off : ℕ
  pub returns : r ≡ some (v', total', end_cluster, end_off)
  pub reaches : (len ≤ total') × (total ≤ total')
  pub bound : off + (total' - total) ≤ room v.bytes_per_cluster (c ∷ cs)
  pub bytes : content v' (c ∷ cs) ≡ put (content v (c ∷ cs)) off buf total (total' - total)
  pub same_fat : v'.fat ≡ v.fat
  pub same_size : v'.bytes_per_cluster ≡ v.bytes_per_cluster
  pub filled : IsFilled v' (c ∷ cs)
  pub others : (j : ℕ) → has (c ∷ cs) j ≡ false → v'.clusters j ≡ v.clusters j

module _ (v : Volume) (c off : ℕ) (buf : ℕ → ℕ) (start n : ℕ) where
  store_other : (j : ℕ) → c ≢ j → (store v c off buf start n).clusters j ≡ v.clusters j
  store_other j ne = update_ne v.clusters c j _ ne

  content-store :
      (cs : List ℕ) → has cs c ≡ false → content (store v c off buf start n) cs ≡ content v cs
  content-store [] out = refl
  content-store (d ∷ ds) out =
      let rest = content-store ds (ground arith) in
      let first = store_other d (ground arith) in rw (first, rest) refl

  pub IsFilled-store :
      (cs : List ℕ) → has cs c ≡ false → IsFilled v cs → IsFilled (store v c off buf start n) cs
  IsFilled-store [] out f = tt
  IsFilled-store (d ∷ ds) out f =
      (ap length (store_other d (ground arith)) ∙ f.0, IsFilled-store ds (ground arith) f.1)

  pub store_here : (store v c off buf start n).clusters c ≡ put (v.clusters c) off buf start n
  store_here = update_self v.clusters c _

  content-store_here :
      (cs : List ℕ)
      → has cs c ≡ false
      → off + n ≤ length (v.clusters c)
      → content (store v c off buf start n) (c ∷ cs) ≡ put (content v (c ∷ cs)) off buf start n
  content-store_here cs out h =
      let rest = content-store cs out in
      rw (store_here, rest) (sym (put-append_left (v.clusters c) (content v cs) off buf start n h))

  -- A round that stays in its cluster, and the rounds after it.
  pub Writes-store :
      (len : ℕ) (cs : List ℕ) (r : Option (Volume × ℕ × ℕ × ℕ))
      → has cs c ≡ false
      → off + n ≤ length (v.clusters c)
      → Writes buf len (store v c off buf start n) (start + n) c (off + n) cs r
      → Writes buf len v start c off cs r
  Writes-store len cs r out h w =
      let sum : n + (w.total' - (start + n)) ≡ w.total' - start = omega (arith, w.reaches.1) in
      record {
        v' = w.v';
        total' = w.total';
        end_cluster = w.end_cluster;
        end_off = w.end_off;
        returns = w.returns;
        reaches = (w.reaches.0, omega (arith, w.reaches.1));
        bound = omega (arith, w.bound, w.reaches.1);
        bytes =
            w.bytes
            ∙ ap (λ (xs : List ℕ). put xs (off + n) buf (start + n) (w.total' - (start + n)))
                (content-store_here cs out h)
            ∙ put-put (content v (c ∷ cs)) off buf start n (w.total' - (start + n))
            ∙ ap (λ (k : ℕ). put (content v (c ∷ cs)) off buf start k) sum;
        same_fat = w.same_fat;
        same_size = w.same_size;
        filled = w.filled;
        others = λ j o. w.others j o ∙ store_other j (ground arith);
      }

-- A round that begins at the end of a cluster goes on with the next one.
pub Writes-next :
    (buf : ℕ → ℕ) (len : ℕ) (v : Volume) (total c d : ℕ) (ds : List ℕ)
    (r : Option (Volume × ℕ × ℕ × ℕ))
    → has (d ∷ ds) c ≡ false
    → length (v.clusters c) ≡ v.bytes_per_cluster
    → Writes buf len v total d 0 ds r
    → Writes buf len v total c v.bytes_per_cluster (d ∷ ds) r
Writes-next buf len v total c d ds r out size w =
    let here = w.others c out in
    let past : v.bytes_per_cluster ≡ length (v.clusters c) + 0 = omega (arith, size) in
    record {
      v' = w.v';
      total' = w.total';
      end_cluster = w.end_cluster;
      end_off = w.end_off;
      returns = w.returns;
      reaches = w.reaches;
      bound = omega (arith, w.bound);
      bytes =
          ap (◌++ content w.v' (d ∷ ds)) here
          ∙ ap (v.clusters c ++◌) w.bytes
          ∙ sym
              (put-append_right (v.clusters c) (content v (d ∷ ds)) 0 buf total (w.total' - total))
          ∙ ap (λ (k : ℕ). put (content v (c ∷ d ∷ ds)) k buf total (w.total' - total)) (sym past);
      same_fat = w.same_fat;
      same_size = w.same_size;
      filled = (ap length here ∙ size ∙ sym w.same_size, w.filled);
      others = λ j o. w.others j (ground arith);
    }
