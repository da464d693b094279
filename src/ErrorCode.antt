-- ===== src/ErrorCode.antt =====
-- kernel/error.hpp: the error codes, their names, and the pair that a fallible function returns.
-- The line and the file that `MAKE_ERROR` records are left out: no code reads them but the log.
mod Tests
pub mod Names
use Prim.Native.String.{String}
use mikansaos.Base.{ℕ, ◌≡◌, Bool, true, false, List, [], ◌∷◌, get_or}

-- `Error::Code`, in the order of the source.
pub data Code : Type 0 where
  success full empty index_out_of_range no_enough_memory not_implemented transfer_ring_not_set :
      Code
  invalid_phase invalid_slot_id already_allocated invalid_descriptor invalid_endpoint_number : Code
  transfer_failed no_corresponding_setup_stage no_waiter unknown_xhci_speed_id no_pci_msi : Code
  unknown_pixel_format no_such_task invalid_format invalid_format_la frame_too_small : Code
  invalid_file is_directory no_such_entry is_not_directory free_type_error last_of_code : Code

-- `static_cast<int>(code)`: the position of the code in the enumeration.
pub index : Code → ℕ
index success = 0
index full = 1
index empty = 2
index index_out_of_range = 3
index no_enough_memory = 4
index not_implemented = 5
index transfer_ring_not_set = 6
index invalid_phase = 7
index invalid_slot_id = 8
index already_allocated = 9
index invalid_descriptor = 10
index invalid_endpoint_number = 11
index transfer_failed = 12
index no_corresponding_setup_stage = 13
index no_waiter = 14
index unknown_xhci_speed_id = 15
index no_pci_msi = 16
index unknown_pixel_format = 17
index no_such_task = 18
index invalid_format = 19
index invalid_format_la = 20
index frame_too_small = 21
index invalid_file = 22
index is_directory = 23
index no_such_entry = 24
index is_not_directory = 25
index free_type_error = 26
index last_of_code = 27

-- `_code_names`, in the order of the source.
pub code_names : List String
code_names =
    "kSuccess" ∷ "kFull" ∷ "kEmpty" ∷ "kIndexOutOfRange" ∷ "kNoEnoughMemory" ∷ "kNotImplemented"
    ∷ "kTransferRingNotSet" ∷ "kInvalidPhase" ∷ "kInvalidSlotID" ∷ "kAlreadyAllocated"
    ∷ "kInvalidDescriptor" ∷ "kInvalidEndpointNumber" ∷ "kTransferFailed"
    ∷ "kNoCorrespondingSetupStage" ∷ "kNoWaiter" ∷ "kUnknownXHCISpeedID" ∷ "kNoPCIMSI"
    ∷ "kUnknownPixelFormat" ∷ "kNoSuchTask" ∷ "kInvalidFormat" ∷ "kInvalidFormatLA"
    ∷ "kFrameTooSmall" ∷ "kIsDirectory" ∷ "kNoSuchEntry" ∷ "kIsNotDirectory" ∷ "kFreeTypeError"
    ∷ "kInvalidFile" ∷ []

-- `Error::Name`. A read past the array is undefined there; here it gives the empty text.
pub name : Code → String
unfolding index code_names
name c = get_or code_names (index c) ""

-- `Error::operator bool`: true for every code but success.
abbrev pub failed : Code → Bool
failed success = false
failed _ = true

pub record WithError {ℓ} (A : Type ℓ) : Type ℓ where
  pub value : A
  pub error : Code
