-- ===== src/Fat/Names/Tests.antt =====
-- Inputs for the theorems on the names of kernel/fat.cpp.
use mikansaos.Base.{ℕ, ◌≡◌, refl, false, List, [], ◌∷◌, ◌++◌}
use mikansaos.Fat.Names.{
  dot, toupper, set_file_name, copy_upper, last_dot, name_is_equal, encode83, same_bytes,
}

-- "ab" and "txt".
abbrev ab : List ℕ
ab = 97 ∷ 98 ∷ []

abbrev txt : List ℕ
txt = 116 ∷ 120 ∷ 116 ∷ []

stored : set_file_name (ab ++ dot ∷ txt) ≡ 65 ∷ 66 ∷ 32 ∷ 32 ∷ 32 ∷ 32 ∷ 32 ∷ 32 ∷ 84 ∷ 88 ∷ 84 ∷ []
unfolding set_file_name copy_upper last_dot toupper
stored = refl

-- Nine letters without a dot: the name that is stored ends after eight of them.
not_found :
    name_is_equal (set_file_name (97 ∷ 97 ∷ 97 ∷ ab ++ ab ++ ab)) (97 ∷ 97 ∷ 97 ∷ ab ++ ab ++ ab)
    ≡ false
unfolding name_is_equal same_bytes encode83 set_file_name copy_upper last_dot toupper
not_found = refl
