-- ===== src/ErrorCode/Names.antt =====
-- Which codes of kernel/error.hpp are logged under their own name.
use Prim.Native.String.{String}
use mikansaos.Base.{◌≡◌, ◌≢◌, refl}
use mikansaos.ErrorCode.{
  Code, success, full, empty, index_out_of_range, no_enough_memory, not_implemented,
  transfer_ring_not_set, invalid_phase, invalid_slot_id, already_allocated, invalid_descriptor,
  invalid_endpoint_number, transfer_failed, no_corresponding_setup_stage, no_waiter,
  unknown_xhci_speed_id, no_pci_msi, unknown_pixel_format, no_such_task, invalid_format,
  invalid_format_la, frame_too_small, invalid_file, is_directory, no_such_entry, is_not_directory,
  free_type_error, last_of_code, name,
}

-- The spelling of each code in the source.
abbrev pub identifier : Code → String
identifier success = "kSuccess"
identifier full = "kFull"
identifier empty = "kEmpty"
identifier index_out_of_range = "kIndexOutOfRange"
identifier no_enough_memory = "kNoEnoughMemory"
identifier not_implemented = "kNotImplemented"
identifier transfer_ring_not_set = "kTransferRingNotSet"
identifier invalid_phase = "kInvalidPhase"
identifier invalid_slot_id = "kInvalidSlotID"
identifier already_allocated = "kAlreadyAllocated"
identifier invalid_descriptor = "kInvalidDescriptor"
identifier invalid_endpoint_number = "kInvalidEndpointNumber"
identifier transfer_failed = "kTransferFailed"
identifier no_corresponding_setup_stage = "kNoCorrespondingSetupStage"
identifier no_waiter = "kNoWaiter"
identifier unknown_xhci_speed_id = "kUnknownXHCISpeedID"
identifier no_pci_msi = "kNoPCIMSI"
identifier unknown_pixel_format = "kUnknownPixelFormat"
identifier no_such_task = "kNoSuchTask"
identifier invalid_format = "kInvalidFormat"
identifier invalid_format_la = "kInvalidFormatLA"
identifier frame_too_small = "kFrameTooSmall"
identifier invalid_file = "kInvalidFile"
identifier is_directory = "kIsDirectory"
identifier no_such_entry = "kNoSuchEntry"
identifier is_not_directory = "kIsNotDirectory"
identifier free_type_error = "kFreeTypeError"
identifier last_of_code = "kLastOfCode"

-- The code whose name the table gives at the position of each of the last five codes.
abbrev pub shown_as : Code → Code
shown_as invalid_file = is_directory
shown_as is_directory = no_such_entry
shown_as no_such_entry = is_not_directory
shown_as is_not_directory = free_type_error
shown_as free_type_error = invalid_file
shown_as c = c

-- For every code but the end marker, `Name` gives the spelling of `shown_as` of the code: its own
-- spelling up to the frame error, and for each of the last five the spelling of another code.
pub name-shown_as : (c : Code) → c ≢ last_of_code → name c ≡ identifier (shown_as c)
unfolding name
name-shown_as last_of_code h = absurd (h refl)
name-shown_as success h = refl
name-shown_as _ h = refl
