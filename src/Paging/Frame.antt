-- ===== src/Paging/Frame.antt =====
-- `NewPageMap` and `SetNewPageMapIfNotPresent` of kernel/paging.cpp: what they keep.
use mikansaos.Base.{
  ℕ, ◌+◌, ◌≡◌, ◌≢◌, refl, ap, ◌∙◌, inl, inr, Bool-cases, true, false, ◌==◌, replicate, arith,
}
use mikansaos.Base.Maps.{update, update_ne}
use mikansaos.ErrorCode.{Code, WithError, success, failed}
use mikansaos.Memory.{BitmapMemoryManager, allocate, get_bit}
use mikansaos.Memory.Allocate.{Outcome, allocated, refused, allocate-Outcome, frames-allocate}
use mikansaos.Paging.{
  Paging, PageMapEntry, no_entry, set_entry, new_page_map, set_new_page_map_if_not_present,
}
use mikansaos.Paging.Sound.{
  Used, IsSound, Extends, Extends-refl, Extends-trans, set_entry-Extends, set_entry-IsSound,
  set_entry_self,
}

-- What an allocation of a frame tells about the bits.
pub record Allocates (m : BitmapMemoryManager) (r : WithError ℕ × BitmapMemoryManager)
    : Type 0 where
  pub kept : (g : ℕ) → get_bit m g ≡ true → get_bit r.1 g ≡ true
  pub fresh : failed r.0.error ≡ false → get_bit m r.0.value ≡ false
  pub taken : failed r.0.error ≡ false → get_bit r.1 r.0.value ≡ true
  pub only :
      (g : ℕ) → failed r.0.error ≡ false → r.0.value ≢ g → get_bit r.1 g ≡ true → get_bit m g ≡ true
  pub same : failed r.0.error ≡ true → r.1 ≡ m
  pub range : r.1.range_end ≡ m.range_end

Outcome-Allocates :
    (m : BitmapMemoryManager) (r : WithError ℕ × BitmapMemoryManager)
    → Outcome m 1 r
    → Allocates m r
Outcome-Allocates m r (refused f) = record {
  kept = λ g h. h;
  fresh = λ e. cc;
  taken = λ e. cc;
  only = λ g e. cc;
  same = λ e. refl;
  range = refl;
}
Outcome-Allocates m r (allocated s m' lo hi run first bits range) = record {
  kept = λ g h. ground (arith, bits g, h);
  fresh = λ e. (let here : s + 0 ≡ s = omega arith in rw⁻¹ here (run 0 (omega arith)).1);
  taken = λ e. ground (arith, bits s);
  only = λ g e ne h. ground (arith, bits g, h, ne);
  same = λ e. cc;
  range = range.1;
}

allocate-Allocates : (p : Paging) → IsSound p → Allocates p.manager (allocate p.manager 1)
allocate-Allocates p s =
    Outcome-Allocates p.manager (allocate p.manager 1) (allocate-Outcome p.manager 1 s.range)

new_page_map-failed :
    (p : Paging)
    → failed (allocate p.manager 1).0.error ≡ true
    → new_page_map p
      ≡ ((allocate p.manager 1).0.error, 0, record p { manager = (allocate p.manager 1).1 })
unfolding new_page_map
new_page_map-failed p e = rw e refl

new_page_map-made :
    (p : Paging)
    → failed (allocate p.manager 1).0.error ≡ false
    → new_page_map p ≡ (
        let (frame, m) = allocate p.manager 1 in
        (
          success,
          frame.value,
          record p {
            manager = m;
            tables = update p.tables frame.value (λ _. no_entry);
            contents = update p.contents frame.value (replicate 4096 0);
          },
        ))
unfolding new_page_map
new_page_map-made p e = rw e refl

-- What `NewPageMap` leaves: all that was there, and on success a frame in use that was not.
pub record NewFrame (p : Paging) (r : Code × ℕ × Paging) : Type 0 where
  pub extends : Extends p r.2
  pub sound : IsSound r.2
  pub used : failed r.0 ≡ false → Used r.2 r.1
  pub tables : failed r.0 ≡ false → (t i : ℕ) → Used p t → r.2.tables t i ≡ p.tables t i

new_page_map-NewFrame : (p : Paging) → IsSound p → NewFrame p (new_page_map p)
new_page_map-NewFrame p s =
    let a = allocate-Allocates p s in
    let f = (allocate p.manager 1).0.value in
    elim (Bool-cases (failed (allocate p.manager 1).0.error)) [
      | inl error ↦
          rw (new_page_map-failed p error, a.same error)
            (record {
              extends = Extends-refl p;
              sound = s;
              used = λ e. absurd (ground (arith, e, error));
              tables = λ e t i u. refl;
            })
      | inr made ↦
          let ne : (t : ℕ) → Used p t → f ≢ t = λ t u e. ground (arith, u, a.fresh made, e) in
          let same : (t i : ℕ) → Used p t → update p.tables f (λ _. no_entry) t i ≡ p.tables t i =
            λ t i u.
              ap (λ (g : ℕ → PageMapEntry). g i)
                (update_ne p.tables f t (λ _. no_entry) (ne t u)) in
          rw (new_page_map-made p made) (record {
            extends = record {
              used = a.kept;
              present = λ t i u e. ap (λ (x : PageMapEntry). x.present) (same t i u) ∙ e;
              addr = λ t i u e. ap (λ (x : PageMapEntry). x.addr) (same t i u);
              user = λ t i u e h. ap (λ (x : PageMapEntry). x.user) (same t i u) ∙ h;
            };
            sound = record {
              leads = λ t i u. elim (Bool-cases (f == t)) [
                | inl here ↦ λ e. absurd (ground (arith, e, here))
                | inr there ↦
                    let old : Used p t = a.only t made (λ q. ground (arith, there, q)) u in
                    rw there (λ e. a.kept (p.tables t i).addr (s.leads t i old e))
              ];
              range = rw (a.range, frames-allocate p.manager 1) s.range;
            };
            used = λ e. a.taken made;
            tables = λ e. same;
          })
    ]

-- What `SetNewPageMapIfNotPresent` leaves.
pub record Child (p : Paging) (t i : ℕ) (r : Code × ℕ × Paging) : Type 0 where
  pub extends : Extends p r.2
  pub sound : IsSound r.2
  pub present : failed r.0 ≡ false → (r.2.tables t i).present ≡ true
  pub addr : failed r.0 ≡ false → (r.2.tables t i).addr ≡ r.1
  pub used : failed r.0 ≡ false → Used r.2 r.1

pub set_new_page_map_if_not_present-Child :
    (p : Paging) (t i : ℕ)
    → IsSound p
    → Used p t
    → Child p t i (set_new_page_map_if_not_present p t i)
unfolding set_new_page_map_if_not_present
set_new_page_map_if_not_present-Child p t i s u =
    let n = new_page_map-NewFrame p s in
    let q = (new_page_map p).2 in
    let f = (new_page_map p).1 in
    let e : PageMapEntry = record (q.tables t i) { present = true; addr = f } in
    elim (Bool-cases (p.tables t i).present) [
      | inl there ↦ simp (there) (record {
        extends = Extends-refl p;
        sound = s;
        present = λ _. there;
        addr = λ _. refl;
        used = λ _. s.leads t i u there;
      })
      | inr absent ↦ simp (absent) (elim (Bool-cases (failed (new_page_map p).0)) [
        | inl error ↦ simp (error) (record {
          extends = n.extends;
          sound = n.sound;
          present = λ ok. absurd (ground (arith, ok, error));
          addr = λ ok. absurd (ground (arith, ok, error));
          used = λ ok. absurd (ground (arith, ok, error));
        })
        | inr made ↦ simp (made) (
            let at : (set_entry q t i e).tables t i ≡ e = set_entry_self q t i e in
            record {
              extends = Extends-trans p q (set_entry q t i e) n.extends (
                  set_entry-Extends q t i e (λ h. absurd (
                    ground (
                      arith,
                      h,
                      absent,
                      ap (λ (x : PageMapEntry). x.present) (n.tables made t i u),
                    ))));
              sound = set_entry-IsSound q t i e n.sound (λ _. n.used made);
              present = λ _. ap (λ (x : PageMapEntry). x.present) at;
              addr = λ _. ap (λ (x : PageMapEntry). x.addr) at;
              used = λ _. n.used made;
            })
      ])
    ]
