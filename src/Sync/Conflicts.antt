-- ===== src/Sync/Conflicts.antt =====
-- src/file_content_conflict.go and src/file_directory_conflict.go. The callback that asks the user is
-- an argument: `none` is a nil function.
use gosync.Base.{
  String, Bool, true, false, ◌&&◌, not, Option, none, some, List, ◌==◌, string_Eq, nat_Eq, ltb,
  if◌then◌else◌, text, Result, ok, err, ◌>>=◌, sort_strings,
}
use gosync.Sync.Domain.{
  SynchronizationEntry, EntryComparison, EntryKind, kind_eq, SynchronizationAction, copy_to_first,
  copy_to_second, SynchronizationSide, first_side, second_side,
}

-- The action and the `required` result: `none` is (zero action, false, nil).
abbrev pub Resolution : Type 0
Resolution = Result (Option SynchronizationAction)

-- The switch on the chosen side, which both resolvers share.
unfoldable pub resolve_side : String → SynchronizationSide → Resolution
resolve_side path first_side = ok (some (record { kind = copy_to_second; relative_path = path }))
resolve_side path second_side = ok (some (record { kind = copy_to_first; relative_path = path }))
resolve_side path (SynchronizationSide.unknown n) = err (text "unknown conflict side %d")

-- The part behind the nil and kind checks.
unfoldable pub resolve_contents :
    String
    → SynchronizationEntry
    → SynchronizationEntry
    → Option (Result SynchronizationSide)
    → Resolution
unfolding resolve_side
resolve_contents path a b request =
    if a.content_digest == b.content_digest
    then ok none
    else if ltb b.modification_time a.modification_time
    then ok (some (record { kind = copy_to_second; relative_path = path }))
    else if ltb a.modification_time b.modification_time
    then ok (some (record { kind = copy_to_first; relative_path = path }))
    else elim request [
      | none ↦ err (text "file conflict decision is required")
      | some answer ↦ answer >>= resolve_side path
    ]

-- `request` is the answer that the callback gives.
unfoldable pub resolve_file_content_conflict :
    EntryComparison → Option (Result SynchronizationSide) → Resolution
unfolding resolve_contents kind_eq
resolve_file_content_conflict c request = elim c.first [
  | none ↦ err (text "file content conflict requires both entries")
  | some a ↦ elim c.second [
    | none ↦ err (text "file content conflict requires both entries")
    | some b ↦
        if kind_eq a.kind EntryKind.file && kind_eq b.kind EntryKind.file
        then resolve_contents c.relative_path a b request
        else err (text "file content conflict requires file entries")
  ]
]

unfoldable pub is_file_or_directory : EntryKind → Bool
is_file_or_directory (EntryKind.unknown n) = false
is_file_or_directory _ = true

-- `request` receives the sorted listing.
unfoldable pub resolve_kinds :
    String
    → EntryKind
    → EntryKind
    → List String
    → Option (List String → Result SynchronizationSide)
    → Resolution
unfolding resolve_side kind_eq is_file_or_directory sort_strings
resolve_kinds path j k contents request =
    if kind_eq j k
    then err (text "file-directory conflict requires one file and one directory")
    else if not (is_file_or_directory j)
    then err (text "unsupported first entry kind %d")
    else if not (is_file_or_directory k)
    then err (text "unsupported second entry kind %d")
    else elim request [
      | none ↦ err (text "file-directory conflict decision is required")
      | some ask ↦ ask (sort_strings contents) >>= resolve_side path
    ]

unfoldable pub resolve_file_directory_conflict :
    EntryComparison → List String → Option (List String → Result SynchronizationSide) → Resolution
unfolding resolve_kinds
resolve_file_directory_conflict c contents request = elim c.first [
  | none ↦ err (text "file-directory conflict requires both entries")
  | some a ↦ elim c.second [
    | none ↦ err (text "file-directory conflict requires both entries")
    | some b ↦ resolve_kinds c.relative_path a.kind b.kind contents request
  ]
]
