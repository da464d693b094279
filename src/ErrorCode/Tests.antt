-- ===== src/ErrorCode/Tests.antt =====
-- Inputs for the theorems on kernel/error.hpp.
use mikansaos.Base.{◌≡◌}
use mikansaos.ErrorCode.{invalid_file, is_directory, name}
use mikansaos.ErrorCode.Names.{identifier, name-shown_as}

name-shown_as_example : name invalid_file ≡ identifier is_directory
name-shown_as_example = name-shown_as invalid_file (λ e. cc)
