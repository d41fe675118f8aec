-- ===== src/Command.antt =====
-- The arguments of a command: src/command_parser.go, the roots of src/root_paths.go, the tests for a URL of
-- src/watch_endpoint.go, and src/config_root_guard.go.
pub mod Parsed
use gosync.Base.{
  ℕ, ◌+◌, String, Bool, true, false, not, ◌&&◌, ◌||◌, List, [], ◌∷◌, ◌==◌, nat_Eq, string_Eq,
  if◌then◌else◌, codes, between, all_codes, Error, text, text_of, Result, ok, err,
}
use gosync.Os.{Os}
use gosync.Os.Monad.{Io, after, within_result, ◌>>=◌, ◌>>◌, return, throw, within, lift}
use gosync.Sync.Executor.{RootPaths}
use gosync.Backup.Policy.{Paths, root_contains}
use gosync.Remote.Paths.{Texts, starts_with}
use gosync.Remote.Endpoint.{
  Url, WatchDestination, WatchCommandRequest, ftp, sftp, parse_remote_endpoint,
}

abbrev pub watch_usage : String
watch_usage =
    "usage: gosync watch <local-directory> <local-directory|ftp://server/remote-directory|sftp://server/remote-directory>"

abbrev pub is_ascii_alpha : ℕ → Bool
is_ascii_alpha c = between b'a' b'z' c || between b'A' b'Z' c

abbrev pub is_scheme_code : ℕ → Bool
is_scheme_code c = is_ascii_alpha c || between b'0' b'9' c || c == b'+' || c == b'.' || c == b'-'

abbrev pub is_valid_uri_scheme : List ℕ → Bool
is_valid_uri_scheme [] = false
is_valid_uri_scheme (c ∷ cs) = is_ascii_alpha c && all_codes is_scheme_code cs

unfoldable pub is_windows_drive_path : List ℕ → Bool
unfolding starts_with
is_windows_drive_path [] = false
is_windows_drive_path (c ∷ []) = false
is_windows_drive_path (c ∷ d ∷ cs) =
    d == b':' && (is_ascii_alpha c && not (starts_with cs (codes "//")))

-- What precedes the first colon, and what follows it; nothing follows if there is none.
unfoldable pub split_colon : List ℕ → List ℕ × (Bool × List ℕ)
split_colon [] = ([], (false, []))
split_colon (c ∷ cs) =
    let (before, behind) = split_colon cs in
    if c == b':' then ([], (true, cs)) else (c ∷ before, behind)

-- What follows the colon of a URL.
abbrev pub has_url_start : List ℕ → Bool
has_url_start cs =
    starts_with cs (codes "//")
    || starts_with cs (codes "/")
    || starts_with cs (codes "?")
    || starts_with cs (codes "#")

-- `strings.ToLower` on ASCII, which a valid scheme is.
abbrev pub lower_code : ℕ → ℕ
lower_code c = if between b'A' b'Z' c then c + 32 else c

-- Whether the codes spell a word in any case.
unfoldable pub spells : List ℕ → List ℕ → Bool
spells [] [] = true
spells [] (d ∷ ds) = false
spells (c ∷ cs) [] = false
spells (c ∷ cs) (d ∷ ds) = lower_code c == d && spells cs ds

abbrev pub is_remote_scheme : List ℕ → Bool
is_remote_scheme scheme = spells scheme (codes ftp) || spells scheme (codes sftp)

unfoldable pub looks_like_url_argument : String → Bool
unfolding is_windows_drive_path split_colon starts_with spells
looks_like_url_argument value =
    let (scheme, (found, remainder)) = split_colon (codes value) in
    if is_windows_drive_path (codes value)
    then false
    else if not found || not (is_valid_uri_scheme scheme)
    then false
    else is_remote_scheme scheme || has_url_start remainder

unfoldable pub parse_configure_command : List String → Result (Unit {0})
parse_configure_command [] = err (text "usage: gosync configure")
parse_configure_command (command ∷ []) =
    if command == "configure" then ok tt else err (text "usage: gosync configure")
parse_configure_command (command ∷ argument ∷ rest) = err (text "usage: gosync configure")

module _ (os : Os) (paths : Paths os) where
  unfoldable pub normalize_root_path : String → Io os.World String
  normalize_root_path root =
      if root == ""
      then throw (text "root path must not be empty")
      else (do normalized ← paths.absolute root; return (os.clean normalized))

  -- Behind the normalization.
  unfoldable pub distinct_roots : String → String → Io os.World RootPaths
  unfolding root_contains
  distinct_roots first second = do
    below ← lift (root_contains paths first second)
    above ← lift (root_contains paths second first)
    (if below || above
        then throw (text "synchronization roots must be distinct and not nested")
        else return (record { first = first; second = second }))

  unfoldable pub validate_root_paths : String → String → Io os.World RootPaths
  unfolding normalize_root_path distinct_roots
  validate_root_paths first_root second_root = do
    first ← within "normalize first root" (normalize_root_path first_root)
    second ← within "normalize second root" (normalize_root_path second_root)
    distinct_roots first second

  -- The loop over the roots, of which an empty one is skipped.
  unfoldable pub outside_roots : String → String → List String → Io os.World (Unit {0})
  unfolding normalize_root_path root_contains
  outside_roots configuration_path normalized [] = return tt
  outside_roots configuration_path normalized (root ∷ roots) =
      let rest = outside_roots configuration_path normalized roots in
      if root == "" then rest else (do
        normalized_root ← within "normalize synchronization root" (normalize_root_path root)
        inside ← lift (root_contains paths normalized_root normalized)
        (if inside
            then throw (text_of "configuration path %q is inside synchronization root %q" root)
            else rest))

  unfoldable pub validate_configuration_path : String → RootPaths → Io os.World (Unit {0})
  unfolding outside_roots
  validate_configuration_path configuration_path roots = do
    normalized ← within "normalize configuration path" (normalize_root_path configuration_path)
    outside_roots configuration_path normalized (roots.first ∷ roots.second ∷ [])

  module _ (texts : Texts) (parse_url : String → Result Url) where
    unfoldable pub remote_request : String → String → Io os.World WatchCommandRequest
    unfolding parse_remote_endpoint normalize_root_path
    remote_request source destination = do
      endpoint ←
          within "invalid remote destination"
            (lift (parse_remote_endpoint texts parse_url destination))
      source_root ← within "normalize local source directory" (normalize_root_path source)
      return
          (record { source_root = source_root; destination = WatchDestination.to_remote endpoint })

    unfoldable pub local_request : String → String → Io os.World WatchCommandRequest
    unfolding validate_root_paths
    local_request source destination = do
      roots ← within watch_usage (validate_root_paths source destination)
      return (record {
        source_root = roots.first;
        destination = WatchDestination.to_local roots.second;
      })

    -- The tests of two arguments behind the command.
    unfoldable pub request_of : String → String → Io os.World WatchCommandRequest
    unfolding remote_request local_request looks_like_url_argument
    request_of source destination =
        if looks_like_url_argument source
        then throw (text "watch source must be a local directory")
        else if looks_like_url_argument destination
        then remote_request source destination
        else local_request source destination

    unfoldable pub parse_watch_command_request : List String → Io os.World WatchCommandRequest
    unfolding request_of
    parse_watch_command_request [] = throw (text watch_usage)
    parse_watch_command_request (command ∷ []) = throw (text watch_usage)
    parse_watch_command_request (command ∷ source ∷ []) = throw (text watch_usage)
    parse_watch_command_request (command ∷ source ∷ destination ∷ []) =
        if not (command == "watch") then throw (text watch_usage) else request_of source destination
    parse_watch_command_request (command ∷ source ∷ destination ∷ another ∷ rest) =
        throw (text watch_usage)
