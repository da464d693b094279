-- ===== src/Terminal/Argv/Pointers.antt =====
-- The strings that `MakeArgv` of kernel/terminal.cpp leaves in its buffer.
use mikansaos.Base.{
  ℕ, zero, suc, ◌+◌, ◌≤◌, ◌<◌, ◌≡◌, refl, ap, ◌∙◌, inl, inr, Bool-cases, false, ◌||◌, List, [], ◌∷◌,
  ◌++◌, leb, length, length-append, get_or, Option, some, arith,
}
use mikansaos.Base.Slices.{append_nil, append_assoc}
use mikansaos.Base.Maps.{update, update_self, update_ne}
use mikansaos.ErrorCode.{Code, failed}
use mikansaos.Terminal.Argv.{Argv, copy_string, push_to_argv, no_args, make_argv}
use mikansaos.Terminal.Argv.Words.{push_all, make_argv-push_all, words_of}

-- The pointers point to the strings, each with its terminator, all of them below the bound.
pub Points : (ℕ → ℕ) → ℕ → List ℕ → List (List ℕ) → Type 0
Points buf bound [] [] = Unit
Points buf bound [] (s ∷ ss) = ⊥
Points buf bound (o ∷ os) [] = ⊥
Points buf bound (o ∷ os) (s ∷ ss) =
    (o + length s < bound)
    × ((i : ℕ) → i ≤ length s → buf (o + i) ≡ get_or s i 0)
    × Points buf bound os ss

copy_string-below : (cs : List ℕ) (buf : ℕ → ℕ) (i j : ℕ) → j < i → copy_string buf i cs j ≡ buf j
unfolding copy_string
copy_string-below [] buf i j h = update_ne buf i j 0 (λ e. omega arith)
copy_string-below (c ∷ cs) buf i j h =
    copy_string-below cs (update buf i c) (i + 1) j (omega arith)
    ∙ update_ne buf i j c (λ e. omega arith)

copy_string-at :
    (cs : List ℕ) (buf : ℕ → ℕ) (i k : ℕ)
    → k ≤ length cs
    → copy_string buf i cs (i + k) ≡ get_or cs k 0
unfolding copy_string
copy_string-at [] buf i zero h = ap (update buf i 0) (omega arith) ∙ update_self buf i 0
copy_string-at [] buf i (suc k) h = absurd (omega arith)
copy_string-at (c ∷ cs) buf i zero h =
    ap (copy_string (update buf i c) (i + 1) cs) (omega arith)
    ∙ copy_string-below cs (update buf i c) (i + 1) i (omega arith)
    ∙ update_self buf i c
copy_string-at (c ∷ cs) buf i (suc k) h =
    ap (copy_string (update buf i c) (i + 1) cs) (omega arith)
    ∙ copy_string-at cs (update buf i c) (i + 1) k (omega arith)

-- A string that is copied at the bound joins the others.
Points-copy :
    (buf : ℕ → ℕ) (bound : ℕ) (os : List ℕ) (ss : List (List ℕ)) (s : List ℕ)
    → Points buf bound os ss
    → Points (copy_string buf bound s) (bound + (length s + 1)) (os ++ bound ∷ []) (ss ++ s ∷ [])
unfolding Points
Points-copy buf bound [] [] s p = (omega arith, copy_string-at s buf bound, tt)
Points-copy buf bound [] (r ∷ rs) s p = absurd p
Points-copy buf bound (o ∷ os) [] s p = absurd p
Points-copy buf bound (o ∷ os) (r ∷ rs) s p = (
  omega (arith, p.0),
  λ i h. copy_string-below s buf bound (o + i) (omega (arith, p.0)) ∙ p.1 i h,
  Points-copy buf bound os rs s p.2,
)

module _ (argv_len argbuf_len : ℕ) where
  -- The arguments so far.
  pub Has : Argv → List (List ℕ) → Type 0
  Has a ss = Points a.argbuf a.argbuf_index a.argv ss × (a.argc ≡ length a.argv)

  push_to_argv-Has :
      (a : Argv) (ss : List (List ℕ)) (s : List ℕ)
      → Has a ss
      → failed (push_to_argv argv_len argbuf_len a s).0 ≡ false
      → Has (push_to_argv argv_len argbuf_len a s).1 (ss ++ s ∷ [])
  unfolding push_to_argv Has
  push_to_argv-Has a ss s h e =
      elim (Bool-cases (leb argv_len a.argc || leb argbuf_len a.argbuf_index)) [
        | inl stuck ↦ absurd (ground (arith, stuck, e))
        | inr room ↦ rw room (
          Points-copy a.argbuf a.argbuf_index a.argv ss s h.0,
          omega (arith, h.1, length-append a.argv (a.argbuf_index ∷ [])),
        )
      ]

  push_all-Has :
      (ss done : List (List ℕ)) (a : Argv)
      → Has a done
      → failed (push_all argv_len argbuf_len a ss).0 ≡ false
      → Has (push_all argv_len argbuf_len a ss).1 (done ++ ss)
  unfolding push_all
  push_all-Has [] done a h e = rw (append_nil done) h
  push_all-Has (s ∷ ss) done a h e =
      elim (Bool-cases (failed (push_to_argv argv_len argbuf_len a s).0)) [
        | inl error ↦ absurd (ground (arith, e, error))
        | inr pushed ↦
            let one = push_to_argv-Has a done s h pushed in
            let rest : failed
                  (push_all argv_len argbuf_len (push_to_argv argv_len argbuf_len a s).1 ss).0
                ≡ false =
              ground (arith, e, pushed) in
            rw pushed (
              rw⁻¹ (append_assoc done (s ∷ []) ss) (
                push_all-Has ss (done ++ s ∷ []) (push_to_argv argv_len argbuf_len a s).1 one rest))
      ]

  -- `MakeArgv` ends. Unless it reports an error, the pointers of `argv`, as many as `argc` says, point
  -- to the command and to the words of the argument line, each of them with its terminator.
  pub make_argv-Points :
      (fuel : ℕ) (command : List ℕ) (arg : Option (List ℕ)) (argbuf : ℕ → ℕ)
      → ((p : List ℕ) → arg ≡ some p → length p < fuel)
      → (r : Code × Argv) × (make_argv argv_len argbuf_len fuel command arg argbuf ≡ some r)
        × (failed r.0 ≡ false
            → Points r.1.argbuf r.1.argbuf_index r.1.argv (command ∷ words_of arg)
              × (r.1.argc ≡ length r.1.argv))
  unfolding Has Points
  make_argv-Points fuel command arg argbuf h = (
    push_all argv_len argbuf_len (no_args argbuf) (command ∷ words_of arg),
    make_argv-push_all argv_len argbuf_len fuel command arg argbuf h,
    λ e. push_all-Has (command ∷ words_of arg) [] (no_args argbuf) (tt, refl) e,
  )
