-- ===== src/Paging/Setup.antt =====
-- `SetupPageMaps` of kernel/paging.cpp for one page, as the page faults ask for it.
use mikansaos.Base.{
  ℕ, zero, suc, ◌≡◌, refl, ap, ◌∙◌, inl, inr, Bool, Bool-cases, true, false, ◌==◌, if◌then◌else◌,
  Option, some, arith,
}
use mikansaos.ErrorCode.{Code, success, failed}
use mikansaos.Paging.{
  Paging, PageMapEntry, part, set_entry, set_new_page_map_if_not_present, next_address, setup_loop,
}
use mikansaos.Paging.Sound.{
  Used, IsSound, Extends, Extends-trans, set_entry-Extends, set_entry-IsSound, set_entry_self,
}
use mikansaos.Paging.Frame.{Child, set_new_page_map_if_not_present-Child}

-- From a table of level `k` on, every table on the way to the address has a present entry for the user.
unfoldable pub Reaches : ℕ → Paging → ℕ → ℕ → Type 0
Reaches zero p table addr = Unit
Reaches (suc k) p table addr =
    ((p.tables table (part addr (suc k))).present ≡ true)
    × ((p.tables table (part addr (suc k))).user ≡ true)
    × Reaches k p (p.tables table (part addr (suc k))).addr addr

Reaches-Extends :
    (k : ℕ) (p q : Paging) (table addr : ℕ)
    → IsSound p
    → Extends p q
    → Used p table
    → Reaches k p table addr
    → Reaches k q table addr
unfolding Reaches
Reaches-Extends zero p q table addr s x u r = tt
Reaches-Extends (suc k) p q table addr s x u r =
    let i = part addr (suc k) in
    (
      x.present table i u r.0,
      x.user table i u r.0 r.1,
      rw (x.addr table i u r.0)
          (Reaches-Extends k p q (p.tables table i).addr addr s x (s.leads table i u r.0) r.2),
    )

-- What a call for one page leaves at level `k`: it ends, keeps all that was mapped, and unless there is
-- an error nothing is left to map and the page is reached.
pub record Maps (k : ℕ) (p : Paging) (table addr : ℕ) (o : Option (Code × ℕ × Paging))
    : Type 0 where
  pub err : Code
  pub remain : ℕ
  pub after : Paging
  pub returns : o ≡ some (err, remain, after)
  pub extends : Extends p after
  pub sound : IsSound after
  pub done : failed err ≡ false → (remain ≡ 0) × Reaches k after table addr

-- A further round, with nothing left to map, does nothing.
setup_loop-zero :
    (level : ℕ) (w : Bool) (below : Paging → ℕ → ℕ → ℕ → Option (Code × ℕ × Paging)) (rounds : ℕ)
    (p : Paging) (t addr : ℕ)
    → setup_loop level w below (suc rounds) p t addr 0 ≡ some (success, 0, p)
unfolding setup_loop
setup_loop-zero level w below rounds p t addr = refl

-- The entry for the user that a round leaves before it goes below.
abbrev marked : Paging → ℕ → ℕ → Bool → Paging
marked q t i w = set_entry q t i (record (q.tables t i) { user = true; writable = w })

setup_loop-failed :
    (level : ℕ) (w : Bool) (below : Paging → ℕ → ℕ → ℕ → Option (Code × ℕ × Paging)) (rounds : ℕ)
    (p : Paging) (t addr : ℕ)
    → failed (set_new_page_map_if_not_present p t (part addr level)).0 ≡ true
    → setup_loop level w below (suc rounds) p t addr 1 ≡ (
        let (err, _, q) = set_new_page_map_if_not_present p t (part addr level) in some (err, 1, q))
unfolding setup_loop
setup_loop-failed level w below rounds p t addr e = rw e refl

setup_loop-below :
    (level : ℕ) (w : Bool) (below : Paging → ℕ → ℕ → ℕ → Option (Code × ℕ × Paging)) (rounds : ℕ)
    (p : Paging) (t addr remain : ℕ) (err : Code) (after : Paging)
    → failed (set_new_page_map_if_not_present p t (part addr level)).0 ≡ false
    → (let (_, child, q) = set_new_page_map_if_not_present p t (part addr level) in
        below (marked q t (part addr level) w) child addr 1 ≡ some (err, remain, after))
    → setup_loop level w below (suc rounds) p t addr 1 ≡ (
        if failed err
        then some (err, 1, after)
        else if part addr level == 511
        then some (success, remain, after)
        else setup_loop level w below rounds after t (next_address addr level) remain)
unfolding setup_loop
setup_loop-below level w below rounds p t addr remain err after e b = rw (e, b) refl

-- The outcome of a call that ends with a given result.
Maps-eq :
    (k : ℕ) (p : Paging) (t addr : ℕ) (o o' : Option (Code × ℕ × Paging))
    → o ≡ o'
    → Maps k p t addr o'
    → Maps k p t addr o
Maps-eq k p t addr o o' e m = record {
  err = m.err;
  remain = m.remain;
  after = m.after;
  returns = e ∙ m.returns;
  extends = m.extends;
  sound = m.sound;
  done = m.done;
}

module _ (k : ℕ) (w : Bool) (below : Paging → ℕ → ℕ → ℕ → Option (Code × ℕ × Paging)) (rounds : ℕ)
    (p : Paging) (t addr : ℕ) (s : IsSound p) (u : Used p t)
    (maps : (q : Paging) (child : ℕ)
      → IsSound q
      → Used q child
      → Maps k q child addr (below q child addr 1)) where
  abbrev place : ℕ
  place = part addr (suc k)

  abbrev step : Code × ℕ × Paging
  step = set_new_page_map_if_not_present p t place

  abbrev entered : Paging
  entered = marked step.2 t place w

  child : Child p t place step
  child = set_new_page_map_if_not_present-Child p t place s u

  entered-entry :
      entered.tables t place ≡ record (step.2.tables t place) { user = true; writable = w }
  entered-entry = set_entry_self step.2 t place _

  entered-Extends : Extends step.2 entered
  entered-Extends = set_entry-Extends step.2 t place _ (λ h. (h, refl, λ _. refl))

  entered-IsSound : failed step.0 ≡ false → IsSound entered
  entered-IsSound ok =
      set_entry-IsSound step.2 t place _ child.sound
        (λ _. child.sound.leads t place (child.extends.used t u) (child.present ok))

  -- The page is reached through the entry of this level.
  through :
      (after : Paging)
      → failed step.0 ≡ false
      → Extends entered after
      → Reaches k after step.1 addr
      → Reaches (suc k) after t addr
  unfolding Reaches
  through after ok x r =
      let used : Used entered t = child.extends.used t u in
      let present : (entered.tables t place).present ≡ true =
        ap (λ (e : PageMapEntry). e.present) entered-entry ∙ child.present ok in
      let addr_of : (after.tables t place).addr ≡ step.1 =
        x.addr t place used present
        ∙ ap (λ (e : PageMapEntry). e.addr) entered-entry
        ∙ child.addr ok in
      (
        x.present t place used present,
        x.user t place used present (ap (λ (e : PageMapEntry). e.user) entered-entry),
        rw addr_of r,
      )

  -- A round for one page, after the work below.
  finished :
      (err : Code) (remain : ℕ) (after : Paging)
      → failed step.0 ≡ false
      → Extends entered after
      → IsSound after
      → (failed err ≡ false → (remain ≡ 0) × Reaches k after step.1 addr)
      → Maps (suc k) p t addr (
          if failed err
          then some (err, 1, after)
          else if place == 511
          then some (success, remain, after)
          else setup_loop (suc k) w below (suc rounds) after t (next_address addr (suc k)) remain)
  finished err remain after ok x sound done =
      let whole =
        Extends-trans p step.2 after child.extends
          (Extends-trans step.2 entered after entered-Extends x) in
      elim (Bool-cases (failed err)) [
        | inl error ↦ rw error (record {
          err = err;
          remain = 1;
          after = after;
          returns = refl;
          extends = whole;
          sound = sound;
          done = λ e. absurd (ground (arith, e, error));
        })
        | inr fine ↦
            let last = setup_loop-zero (suc k) w below rounds after t (next_address addr (suc k)) in
            let result : Maps (suc k) p t addr (some (success, 0, after)) = record {
              err = success;
              remain = 0;
              after = after;
              returns = refl;
              extends = whole;
              sound = sound;
              done = λ e. (refl, through after ok x (done fine).1);
            } in
            rw (fine, (done fine).0)
              (elim (Bool-cases (place == 511)) [
                | inl end ↦ rw end result
                | inr more ↦ rw (more, last) result
              ])
      ]

  pub setup_loop-Maps :
      Maps (suc k) p t addr (setup_loop (suc k) w below (suc (suc rounds)) p t addr 1)
  setup_loop-Maps = elim (Bool-cases (failed step.0)) [
    | inl error ↦
        Maps-eq (suc k) p t addr _ (some (step.0, 1, step.2))
          (setup_loop-failed (suc k) w below (suc rounds) p t addr error)
          (record {
            err = step.0;
            remain = 1;
            after = step.2;
            returns = refl;
            extends = child.extends;
            sound = child.sound;
            done = λ e. absurd (ground (arith, e, error));
          })
    | inr ok ↦
        let b = maps entered step.1 (entered-IsSound ok) (child.used ok) in
        Maps-eq (suc k) p t addr _ _
          (setup_loop-below (suc k) w below (suc rounds) p t addr b.remain b.err b.after ok
            b.returns)
          (finished b.err b.remain b.after ok b.extends b.sound b.done)
  ]
