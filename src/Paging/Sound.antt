-- ===== src/Paging/Sound.antt =====
-- What the tables of kernel/paging.cpp keep while entries are added.
use mikansaos.Base.{
  ℕ, ◌≤◌, ◌≡◌, refl, ap, ◌∙◌, inl, inr, Bool-cases, true, ◌==◌, ==_iff, if◌then◌else◌, arith,
}
use mikansaos.Base.Maps.{update, update_self}
use mikansaos.Memory.{get_bit}
use mikansaos.Memory.Frames.{frames}
use mikansaos.Paging.{Paging, PageMapEntry, set_entry}

abbrev pub Used : Paging → ℕ → Type 0
Used p t = get_bit p.manager t ≡ true

-- A present entry of a frame in use leads to a frame in use, and the range of frames lies in the map.
pub record IsSound (p : Paging) : Type 0 where
  pub leads : (t i : ℕ) → Used p t → (p.tables t i).present ≡ true → Used p (p.tables t i).addr
  pub range : p.manager.range_end ≤ frames p.manager

-- Frames stay in use, and present entries present, at the same frame and for the user.
pub record Extends (p q : Paging) : Type 0 where
  pub used : (t : ℕ) → Used p t → Used q t
  pub present : (t i : ℕ) → Used p t → (p.tables t i).present ≡ true → (q.tables t i).present ≡ true
  pub addr :
      (t i : ℕ)
      → Used p t
      → (p.tables t i).present ≡ true
      → (q.tables t i).addr ≡ (p.tables t i).addr
  pub user :
      (t i : ℕ)
      → Used p t
      → (p.tables t i).present ≡ true
      → (p.tables t i).user ≡ true
      → (q.tables t i).user ≡ true

pub Extends-refl : (p : Paging) → Extends p p
Extends-refl p = record {
  used = λ t u. u;
  present = λ t i u e. e;
  addr = λ t i u e. refl;
  user = λ t i u e s. s;
}

pub Extends-trans : (p q r : Paging) → Extends p q → Extends q r → Extends p r
Extends-trans p q r a b = record {
  used = λ t u. b.used t (a.used t u);
  present = λ t i u e. b.present t i (a.used t u) (a.present t i u e);
  addr = λ t i u e. b.addr t i (a.used t u) (a.present t i u e) ∙ a.addr t i u e;
  user = λ t i u e s. b.user t i (a.used t u) (a.present t i u e) (a.user t i u e s);
}

-- The entry that a write of one entry leaves at a place.
pub set_entry-at :
    (p : Paging) (t i u j : ℕ) (e : PageMapEntry)
    → (set_entry p t i e).tables u j
      ≡ (if t == u then (if i == j then e else p.tables t j) else p.tables u j)
set_entry-at p t i u j e = elim (Bool-cases (t == u)) [
  | inl same ↦ rw same refl
  | inr other ↦ rw other refl
]

-- An entry that keeps its frame and its presence and may gain the rest.
pub set_entry-Extends :
    (p : Paging) (t i : ℕ) (e : PageMapEntry)
    → ((p.tables t i).present ≡ true
        → (e.present ≡ true)
          × (e.addr ≡ (p.tables t i).addr)
          × ((p.tables t i).user ≡ true → e.user ≡ true))
    → Extends p (set_entry p t i e)
set_entry-Extends p t i e same = record {
  used = λ t u. u;
  present = λ u j used h. ground (arith, set_entry-at p t i u j e, same, h);
  addr = λ u j used h. ground (arith, set_entry-at p t i u j e, same, h);
  user = λ u j used h s. ground (arith, set_entry-at p t i u j e, same, s, h);
}

pub set_entry-IsSound :
    (p : Paging) (t i : ℕ) (e : PageMapEntry)
    → IsSound p
    → (e.present ≡ true → Used p e.addr)
    → IsSound (set_entry p t i e)
set_entry-IsSound p t i e s h = record {
  leads = λ u j used. rw (set_entry-at p t i u j e) (elim (Bool-cases (t == u)) [
    | inr other ↦ rw other (s.leads u j used)
    | inl same ↦
        let used_t : Used p t = rw ((==_iff t u).0 same) used in
        rw same (elim (Bool-cases (i == j)) [
          | inl here ↦ rw here h
          | inr there ↦ rw there (s.leads t j used_t)
        ])
  ]);
  range = s.range;
}

pub set_entry_self : (p : Paging) (t i : ℕ) (e : PageMapEntry) → (set_entry p t i e).tables t i ≡ e
set_entry_self p t i e =
    ap (λ (g : ℕ → PageMapEntry). g i) (update_self p.tables t (update (p.tables t) i e))
    ∙ update_self (p.tables t) i e
