-- ===== src/Remote/Endpoint.antt =====
-- The endpoint of a remote watch: its parser in src/watch_endpoint.go, its validation and the policy of
-- src/remote_watch_policy.go. `parse_url` is `url.Parse`, and `Url` what `net/url` tells of a parsed URL.
pub mod Policy
pub mod Valid
use gosync.Base.{
  ℕ, String, Bool, true, false, not, ◌&&◌, ◌||◌, Option, none, some, List, [], ◌∷◌, ◌==◌, nat_Eq,
  string_Eq, leb, any, if◌then◌else◌, codes, Error, text, wrap, Result, ok, err, ℤ, pos, check,
  fail_if, within, ◌>>=◌, ◌>>◌,
}
use gosync.Config.Domain.{
  ConfigurationSnapshot, validate_configuration_snapshot, out_of_range, unidirectional, backup,
}
use gosync.Config.Answers.{atoi}
use gosync.Remote.Paths.{
  Texts, contains_codes, validate_remote_directory_path, validate_remote_path_escaping,
}

abbrev pub ftp : String
ftp = "ftp"

abbrev pub sftp : String
sftp = "sftp"

abbrev pub is_protocol : String → Bool
is_protocol s = s == ftp || s == sftp

pub record RemoteEndpoint : Type 0 where
  pub protocol : String
  pub host : String
  pub port : ℤ
  pub path : String

pub record Url : Type 0 where
  pub scheme : String
  pub opaque_part : String
  pub host : String
  pub hostname : String
  pub has_user : Bool
  pub raw_query : String
  pub force_query : Bool
  pub path : String
  pub escaped_path : String
  pub port : String

abbrev pub ends_in_colon : List ℕ → Bool
ends_in_colon [] = false
ends_in_colon (c ∷ []) = c == b':'
ends_in_colon (c ∷ d ∷ cs) = ends_in_colon (d ∷ cs)

abbrev pub is_url_space : ℕ → Bool
is_url_space c = c == b' ' || c == 9 || c == 13 || c == 10

-- An error of `url.Parse` is replaced.
abbrev pub with_syntax : Result Url → Result Url
with_syntax (ok u) = ok u
with_syntax (err e) = err (text "URL syntax is invalid")

abbrev pub is_host_delimiter : ℕ → Bool
is_host_delimiter c = c == b'/' || c == b'\\' || c == b'@' || c == b'?' || c == b'#' || leb c 32

abbrev pub contains_remote_host_delimiter : String → Bool
contains_remote_host_delimiter host = any is_host_delimiter (codes host)

module _ (texts : Texts) where
  -- A port that the URL writes.
  abbrev pub in_port_range : Result ℤ → Result ℤ
  in_port_range (err e) = err (text "server port must be between 1 and 65535")
  in_port_range (ok z) =
      if out_of_range z 1 65535 then err (text "server port must be between 1 and 65535") else ok z

  unfoldable pub parse_remote_port : Url → Result ℤ
  unfolding atoi
  parse_remote_port u =
      if u.port == ""
      then if ends_in_colon (codes u.host)
        then err (text "server port must not be empty")
        else if texts.lower u.scheme == ftp
        then ok (pos 21)
        else ok (pos 22)
      else in_port_range (atoi u.port)

  unfoldable pub validate_remote_endpoint : RemoteEndpoint → Option Error
  unfolding validate_remote_directory_path validate_remote_path_escaping
  validate_remote_endpoint e =
      if not (is_protocol e.protocol)
      then some (text "remote destination protocol must be ftp or sftp")
      else if e.host == "" || out_of_range e.port 1 65535
      then some (text "remote destination server and valid port are required")
      else if not (e.host == texts.lower e.host) || contains_remote_host_delimiter e.host
      then some (text "remote destination server is invalid")
      else elim (validate_remote_directory_path texts e.path) [
        | some x ↦ some x
        | none ↦ validate_remote_path_escaping texts e.path
      ]

  module _ (parse_url : String → Result Url) where
    unfoldable pub parse_remote_endpoint : String → Result RemoteEndpoint
    unfolding parse_remote_port contains_codes
    parse_remote_endpoint endpoint_text = do
      fail_if (any is_url_space (codes endpoint_text)) (text "URL contains unescaped whitespace")
      u ← with_syntax (parse_url endpoint_text)
      fail_if (not (is_protocol (texts.lower u.scheme))) (text "scheme must be ftp or sftp")
      fail_if (not (u.opaque_part == ""))
          (text "URL must use an explicit server and directory path")
      fail_if (u.host == "" || u.hostname == "") (text "server host is required")
      fail_if u.has_user (text "credentials must not be included in the URL")
      fail_if
          (not (u.raw_query == "")
            || u.force_query
            || contains_codes (codes endpoint_text) (codes "?"))
          (text "query strings are not allowed")
      fail_if (contains_codes (codes endpoint_text) (codes "#")) (text "fragments are not allowed")
      port ← parse_remote_port u
      check (validate_remote_directory_path texts u.path)
      check (validate_remote_path_escaping texts u.escaped_path)
      ok (record {
        protocol = texts.lower u.scheme;
        host = texts.lower u.hostname;
        port = port;
        path = u.path;
      })

pub record RemoteWatchPolicySnapshot : Type 0 where
  pub source_root : String
  pub destination : RemoteEndpoint
  pub mode : String
  pub interval_seconds : ℤ
  pub retention_count : ℤ

pub data WatchDestination : Type 0 where
  to_local : String → WatchDestination
  to_remote : RemoteEndpoint → WatchDestination

pub record WatchCommandRequest : Type 0 where
  pub source_root : String
  pub destination : WatchDestination

abbrev pub remote_endpoint : WatchDestination → Result RemoteEndpoint
remote_endpoint (WatchDestination.to_local p) =
    err (text "remote watch policy requires a remote destination")
remote_endpoint (WatchDestination.to_remote e) = ok e

abbrev pub in_context : String → Option Error → Option Error
in_context s none = none
in_context s (some e) = some (wrap s e)

-- `normalize` is `normalizeRootPath`.
module _ (texts : Texts) (normalize : String → Result String) where
  unfoldable pub build_remote_watch_policy_snapshot :
      WatchCommandRequest → ConfigurationSnapshot → Result RemoteWatchPolicySnapshot
  unfolding validate_remote_endpoint validate_configuration_snapshot
  build_remote_watch_policy_snapshot request c = do
    endpoint ← remote_endpoint request.destination
    check (validate_remote_endpoint texts endpoint)
    check (in_context "validate remote watch configuration" (validate_configuration_snapshot c))
    fail_if (not (c.mode == unidirectional) && not (c.mode == backup))
        (text "remote destinations support only unidirectional and BACKUP modes")
    source_root ← within "normalize remote watch source directory" (normalize request.source_root)
    ok (record {
      source_root = source_root;
      destination = endpoint;
      mode = c.mode;
      interval_seconds = c.interval_seconds;
      retention_count = c.retention_count;
    })
