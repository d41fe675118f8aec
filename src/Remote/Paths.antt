-- ===== src/Remote/Paths.antt =====
-- The remote paths of src/watch_endpoint.go and src/remote_contract.go. Go's `unicode.IsControl`,
-- `utf8.ValidString`, `strings.ToLower` and `url.PathUnescape` are the fields of a record.
pub mod Fuel
use gosync.Base.{
  ℕ, zero, suc, String, Bool, true, false, not, ◌&&◌, ◌||◌, Option, none, some, List, [], ◌∷◌, ◌==◌,
  nat_Eq, string_Eq, any, length, if◌then◌else◌, codes, Error, text, wrap, Result, ok, err, ◌<>◌,
}

pub record Texts : Type 0 where
  pub is_control : ℕ → Bool
  pub is_valid_text : String → Bool
  pub lower : String → String
  pub path_unescape : String → Result String

-- `strings.HasPrefix` on code points.
unfoldable pub starts_with : List ℕ → List ℕ → Bool
starts_with cs [] = true
starts_with [] (d ∷ ds) = false
starts_with (c ∷ cs) (d ∷ ds) = c == d && starts_with cs ds

abbrev pub has_prefix : String → String → Bool
has_prefix s prefix = starts_with (codes s) (codes prefix)

-- `strings.Contains`
unfoldable pub contains_codes : List ℕ → List ℕ → Bool
unfolding starts_with
contains_codes [] ds = starts_with [] ds
contains_codes (c ∷ cs) ds = starts_with (c ∷ cs) ds || contains_codes cs ds

-- `strings.HasSuffix` of a slash.
unfoldable pub ends_in_slash : List ℕ → Bool
ends_in_slash [] = false
ends_in_slash (c ∷ []) = c == b'/'
ends_in_slash (c ∷ d ∷ cs) = ends_in_slash (d ∷ cs)

-- `strings.Split` at the slashes: the first segment, and those behind it.
unfoldable pub split_slashes : List ℕ → List ℕ × List (List ℕ)
split_slashes [] = ([], [])
split_slashes (c ∷ cs) =
    let (segment, segments) = split_slashes cs in
    if c == b'/' then ([], segment ∷ segments) else (c ∷ segment, segments)

abbrev pub is_dots : List ℕ → Bool
is_dots (c ∷ []) = c == b'.'
is_dots (c ∷ d ∷ []) = c == b'.' && d == b'.'
is_dots cs = false

-- The loop over the segments.
unfoldable pub check_segments : List (List ℕ) → Option Error
check_segments [] = none
check_segments ([] ∷ segments) = some (text "remote directory path contains an empty segment")
check_segments ((c ∷ cs) ∷ segments) =
    if is_dots (c ∷ cs)
    then some (text "remote directory path must not contain dot segments")
    else check_segments segments

abbrev pub segments_of : List ℕ → List (List ℕ)
segments_of cs = let (segment, segments) = split_slashes cs in segment ∷ segments

-- `strings.TrimPrefix` of a slash.
abbrev pub trim_slash : List ℕ → List ℕ
trim_slash [] = []
trim_slash (c ∷ cs) = if c == b'/' then cs else c ∷ cs

module _ (texts : Texts) where
  -- `validateRemoteDirectoryPath` without the path that it returns unchanged.
  unfoldable pub validate_remote_directory_path : String → Option Error
  unfolding starts_with contains_codes ends_in_slash split_slashes check_segments
  validate_remote_directory_path path =
      if path == "" || not (has_prefix path "/")
      then some (text "an absolute remote directory path is required")
      else if path == "/" || has_prefix path "//"
      then some (text "the server root is not a valid destination")
      else if contains_codes (codes path) (codes "\\") || not (texts.is_valid_text path)
      then some (text "remote directory path contains an unsupported separator or encoding")
      else if any texts.is_control (codes path)
      then some (text "remote directory path contains a control character")
      else if ends_in_slash (codes path)
      then some (text "remote directory path must not have a trailing separator")
      else check_segments (segments_of (trim_slash (codes path)))

  abbrev pub has_encoded_separator : String → Bool
  has_encoded_separator candidate =
      contains_codes (codes (texts.lower candidate)) (codes "%2f")
      || contains_codes (codes (texts.lower candidate)) (codes "%5c")

  -- The loop that unescapes until nothing changes. `none` means that the fuel has run out.
  unfoldable pub check_escaping : ℕ → String → Option (Option Error)
  unfolding validate_remote_directory_path contains_codes
  check_escaping zero candidate = none
  check_escaping (suc n) candidate =
      if has_encoded_separator candidate
      then some (some (text "encoded path separators are not allowed"))
      else elim (texts.path_unescape candidate) [
        | err e ↦ some none
        | ok decoded ↦ elim (validate_remote_directory_path decoded) [
          | some e ↦ some (some (wrap "remote directory path has ambiguous escaping" e))
          | none ↦ if decoded == candidate then some none else check_escaping n decoded
        ]
      ]

  -- Each round that goes on shortens the text, so that its length bounds the rounds.
  abbrev pub escaping_fuel : String → ℕ
  escaping_fuel candidate = suc (length (codes candidate))

  unfoldable pub validate_remote_path_escaping : String → Option Error
  unfolding check_escaping
  validate_remote_path_escaping path = elim (check_escaping (escaping_fuel path) path) [
    | some result ↦ result
    | none ↦ some (text "out of fuel")
  ]

  -- `newRemoteRelativePath`, whose value is the text itself.
  unfoldable pub relative_path_error : String → Option Error
  unfolding validate_remote_path_escaping contains_codes starts_with
  relative_path_error value =
      if value == ""
      then some
          (text "remote relative path must not be empty; use the remote root for root operations")
      else if has_prefix value "/"
          || contains_codes (codes value) (codes "\\")
          || not (texts.is_valid_text value)
      then some (text "remote path must be a valid relative path using forward slashes")
      else elim (validate_remote_directory_path ("/" <> value)) [
        | some e ↦ some (wrap "invalid remote relative path" e)
        | none ↦ elim (validate_remote_path_escaping ("/" <> value)) [
          | some e ↦ some (wrap "invalid remote relative path" e)
          | none ↦
              if any texts.is_control (codes value)
              then some (text "remote relative path contains a control character")
              else none
        ]
      ]
