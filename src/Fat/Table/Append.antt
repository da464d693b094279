-- ===== src/Fat/Table/Append.antt =====
-- `ExtendCluster` of kernel/fat.cpp on a whole chain.
use mikansaos.Base.{
  ℕ, ◌-◌, ◌≤◌, ◌<◌, ◌≡◌, ◌≢◌, refl, sym, ap, ◌∙◌, inr, true, false, List, [], ◌∷◌, ◌++◌, Option,
  some, length, arith,
}
use mikansaos.Fat.Table.{entry, is_end_of_cluster_chain, last_cluster, take_free, extend_cluster}
use mikansaos.Fat.Table.Chains.{
  has, Linked, last_of, last_cluster-Linked, RisesFrom, AllFree, has-AllFree,
}
use mikansaos.Fat.Table.Extend.{IsSmall, take_free-Extends, take_free-total, count_free}

pub end-last_of :
    (fat : List ℕ) (c : ℕ) (cs : List ℕ)
    → Linked fat c cs
    → is_end_of_cluster_chain (entry fat (last_of c cs)) ≡ true
end-last_of fat c [] l = l
end-last_of fat c (d ∷ ds) l = end-last_of fat d ds l.3

-- A chain goes on where another begins, if the entries inside it are still the same.
pub Linked-append :
    (fat fat' : List ℕ) (c : ℕ) (cs new : List ℕ)
    → ((j : ℕ)
        → is_end_of_cluster_chain (entry fat j) ≡ false
        → entry fat j ≢ 0
        → entry fat' j ≡ entry fat j)
    → Linked fat c cs
    → Linked fat' (last_of c cs) new
    → Linked fat' c (cs ++ new)
Linked-append fat fat' c [] new same l l' = l'
Linked-append fat fat' c (d ∷ ds) new same l l' = (
  same c (rw l.0 l.2) (λ z. l.1 (sym l.0 ∙ z)) ∙ l.0,
  l.1,
  l.2,
  Linked-append fat fat' d ds new same l.3 l',
)

extend_cluster-some :
    (fat : List ℕ) (c last n : ℕ)
    → last_cluster fat (length fat) c ≡ some last
    → extend_cluster fat c n ≡ take_free fat (length fat - 2) last 2 n
unfolding extend_cluster
extend_cluster-some fat c last n e = rw (e, extend_cluster)

end-ne-zero : (x : ℕ) → is_end_of_cluster_chain x ≡ true → x ≢ 0
unfolding is_end_of_cluster_chain
end-ne-zero x h z = ground arith

-- The outcome of `ExtendCluster` on the chain `c ∷ cs`.
pub record Appends (fat : List ℕ) (c : ℕ) (cs : List ℕ) (n : ℕ) (r : Option (List ℕ × ℕ))
    : Type 0 where
  pub fat' : List ℕ
  pub new : List ℕ
  pub length_new : length new ≡ n
  pub rises : RisesFrom 2 new
  pub free : AllFree fat new
  pub returns : r ≡ some (fat', last_of c (cs ++ new))
  pub chain : Linked fat' c (cs ++ new)
  pub unchanged : (j : ℕ) → j ≢ last_of c cs → has new j ≡ false → entry fat' j ≡ entry fat j
  pub same_length : length fat' ≡ length fat

last_of-append : (c : ℕ) (cs ds : List ℕ) → last_of c (cs ++ ds) ≡ last_of (last_of c cs) ds
last_of-append c [] ds = refl
last_of-append c (x ∷ cs) ds = last_of-append x cs ds

-- In a table with fewer entries than the least number that marks the end of a chain: on a chain
-- shorter than the table, whose last cluster lies in it, and where `n` clusters are free,
-- `ExtendCluster` appends exactly `n` clusters that were free, and returns the new last one. No
-- other entry of the table changes.
pub extend_cluster-Appends :
    (fat : List ℕ) (c n : ℕ) (cs : List ℕ)
    → IsSmall fat
    → 2 ≤ length fat
    → length cs < length fat
    → last_of c cs < length fat
    → Linked fat c cs
    → n ≤ count_free fat 2 (length fat - 2)
    → Appends fat c cs n (extend_cluster fat c n)
extend_cluster-Appends fat c n cs small two short inside l enough =
    let last = last_of c cs in
    let busy : entry fat last ≢ 0 = end-ne-zero _ (end-last_of fat c cs l) in
    let eq = extend_cluster-some fat c last n (last_cluster-Linked fat (length fat) c cs short l) in
    let (r, found) =
      take_free-total (length fat - 2) n fat last 2 inside (omega arith) (omega arith) (inr busy)
        enough in
    let e =
      take_free-Extends (length fat - 2) n fat last 2 r.0 r.1 small inside (omega arith)
        (omega arith) (inr busy) found in
    record {
      fat' = r.0;
      new = e.new;
      length_new = e.length_new;
      rises = e.rises;
      free = e.free;
      returns =
          eq ∙ found ∙ ap (λ (k : ℕ). some (r.0, k)) (e.last_eq ∙ sym (last_of-append c cs e.new));
      chain =
          Linked-append fat r.0 c cs e.new
            (λ j inner nz.
              e.unchanged j (λ k. cc (inner, end-last_of fat c cs l, k))
                (has-AllFree fat j e.new e.free nz))
            l e.linked;
      unchanged = e.unchanged;
      same_length = e.same_length;
    }
