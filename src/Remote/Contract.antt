-- ===== src/Remote/Contract.antt =====
-- Of src/remote_contract.go: entries and inspections of a remote directory, the capabilities that a
-- mode needs, and the errors of an operation with its cleanup.
use gosync.Base.{
  String, Bool, true, false, not, ◌&&◌, ◌||◌, Option, none, some, List, [], ◌∷◌, ◌++◌, ◌==◌,
  string_Eq, contains, if◌then◌else◌, Error, text, text_of, wrap,
}
use gosync.Config.Domain.{unidirectional, backup}
use gosync.Remote.Paths.{Texts, relative_path_error}

-- A kind is a string in the source: one outside the named constants is `other_entry`.
pub data RemoteEntryKind : Type 0 where
  regular directory link special unknown : RemoteEntryKind
  other_entry : String → RemoteEntryKind

pub record RemoteEntry : Type 0 where
  pub path : String
  pub kind : RemoteEntryKind

pub record RemoteDirectoryInspection : Type 0 where
  pub root_exists : Bool
  pub root_kind : RemoteEntryKind
  pub complete : Bool
  pub entries : List RemoteEntry

pub record RemoteCapabilities : Type 0 where
  pub complete_typed_listings : Bool
  pub non_redirecting_paths : Bool
  pub lossless_names : Bool
  pub binary_transfers : Bool
  pub read_back_verification : Bool
  pub exclusive_ownership : Bool
  pub durable_confirmation : Bool

pub data RemoteCapability : Type 0 where
  typed_listings non_redirecting lossless binary read_back exclusive durable : RemoteCapability

pub record RemoteOperationFailure : Type 0 where
  pub operation_error : Option Error
  pub cleanup_error : Option Error
  pub close_error : Option Error

abbrev pub valid_remote_entry_kind : RemoteEntryKind → Bool
valid_remote_entry_kind (RemoteEntryKind.other_entry s) = false
valid_remote_entry_kind k = true

abbrev pub is_no_kind : RemoteEntryKind → Bool
is_no_kind (RemoteEntryKind.other_entry s) = s == ""
is_no_kind k = false

-- The loop over the entries; `seen` are the paths before.
unfoldable pub check_entries : Texts → List String → List RemoteEntry → Option Error
unfolding relative_path_error
check_entries texts seen [] = none
check_entries texts seen (e ∷ es) =
    let rest = check_entries texts (e.path ∷ seen) es in
    elim (relative_path_error texts e.path) [
      | some x ↦ some (wrap "remote listing contains an invalid relative path" x)
      | none ↦
          if not (valid_remote_entry_kind e.kind)
          then some (text_of "remote entry %q has invalid type %q" e.path)
          else if contains e.path seen
          then some (text_of "remote listing contains duplicate path %q" e.path)
          else rest
    ]

abbrev pub is_empty : List RemoteEntry → Bool
is_empty [] = true
is_empty (e ∷ es) = false

unfoldable pub validate_remote_directory_inspection :
    Texts → RemoteDirectoryInspection → Option Error
unfolding check_entries
validate_remote_directory_inspection texts i =
    if not i.root_exists
    then (if not (is_no_kind i.root_kind) || not (is_empty i.entries)
        then some (text "missing remote destination cannot contain a root type or entries")
        else none)
    else if not (valid_remote_entry_kind i.root_kind)
    then some (text "remote root has invalid entry type %q")
    else check_entries texts [] i.entries

-- A capability is missing unless it is there.
abbrev pub unless : Bool → RemoteCapability → List RemoteCapability
unless true c = []
unless false c = c ∷ []

unfoldable pub missing_for : RemoteCapabilities → String → List RemoteCapability
missing_for c mode =
    unless c.complete_typed_listings typed_listings
    ++ (unless c.non_redirecting_paths non_redirecting
        ++ (unless c.lossless_names lossless
            ++ (unless c.binary_transfers binary
                ++ (unless c.read_back_verification read_back
                    ++ (if mode == backup
                        then unless c.exclusive_ownership exclusive
                          ++ unless c.durable_confirmation durable
                        else [])))))

-- The error of missing capabilities holds them.
pub data CapabilityCheck : Type 0 where
  supported : CapabilityCheck
  unsupported_mode : String → CapabilityCheck
  lacking : String → List RemoteCapability → CapabilityCheck

unfoldable pub require_remote_capabilities : RemoteCapabilities → String → CapabilityCheck
unfolding missing_for
require_remote_capabilities c mode =
    if not (mode == unidirectional) && not (mode == backup)
    then unsupported_mode mode
    else elim (missing_for c mode) [ [] ↦ supported | m ∷ ms ↦ lacking mode (m ∷ ms) ]

abbrev pub listed : Option Error → List Error
listed none = []
listed (some e) = e ∷ []

-- `Unwrap`
unfoldable pub causes : RemoteOperationFailure → List Error
causes f = listed f.operation_error ++ (listed f.cleanup_error ++ listed f.close_error)

unfoldable pub combine_remote_operation_errors :
    Option Error → Option Error → Option Error → Option RemoteOperationFailure
combine_remote_operation_errors none none none = none
combine_remote_operation_errors (some e) c d =
    some (record { operation_error = some e; cleanup_error = c; close_error = d })
combine_remote_operation_errors none (some e) d =
    some (record { operation_error = none; cleanup_error = some e; close_error = d })
combine_remote_operation_errors none none (some e) =
    some (record { operation_error = none; cleanup_error = none; close_error = some e })
