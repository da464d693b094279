-- ===== src/Console/Tests.antt =====
-- Inputs for the theorem on the console of kernel/console.cpp.
use mikansaos.Base.{ℕ, ◌≡◌, refl, List, ◌++◌, replicate}
use mikansaos.Console.{new_console, put_string}
use mikansaos.Console.Page.{Shows, empty_page, print_all, put_string-Shows}

-- 30 lines, the last of which is longer than a row.
abbrev text : List ℕ
text = replicate 29 10 ++ replicate 100 65

last_line : (print_all empty_page text).line ≡ replicate 79 65
unfolding print_all
last_line = refl

put_string-Shows_example : Shows (put_string new_console text) (print_all empty_page text)
put_string-Shows_example = put_string-Shows text
