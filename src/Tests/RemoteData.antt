-- ===== src/Tests/RemoteData.antt =====
-- The theorems on remote paths and their scope at small texts.
use gosync.Base.{
  ℕ, ◌<◌, String, true, false, none, List, [], ◌∷◌, ◌==◌, string_Eq, length, codes, text, Result,
  ok, err, ◌≡◌, arith, pos, refl, if◌then◌else◌, beq_self, Bool-cases, inl, inr, All, ◌<>◌,
}
use mathlib.Core.Path.{subst}
use gosync.Os.{Os}
use gosync.Os.Monad.{return, after, within_result}
use gosync.Backup.Policy.{Paths}
use gosync.Command.{parse_watch_command_request, split_colon, spells, is_windows_drive_path}
use gosync.Command.Parsed.{IsParsed, parse_watch_command_request-IsParsed}
use gosync.Tests.Quiet.{quiet_os}
use gosync.Remote.Paths.{
  Texts, check_escaping, validate_remote_directory_path, validate_remote_path_escaping,
}
use gosync.Remote.Paths.Fuel.{check_escaping_ends}
use gosync.Config.Domain.{ConfigurationSnapshot}
use gosync.Remote.Endpoint.{
  Url, RemoteEndpoint, RemoteWatchPolicySnapshot, WatchDestination, WatchCommandRequest,
  parse_remote_endpoint, validate_remote_endpoint, build_remote_watch_policy_snapshot,
}
use gosync.Remote.Endpoint.Policy.{IsChecked, build_remote_watch_policy_snapshot-IsChecked}
use gosync.Remote.Endpoint.Valid.{UrlLaws, parse_remote_endpoint-IsValid}
use gosync.Remote.Contract.{directory}
use gosync.Remote.Scoped.{Operations}
use gosync.Remote.Scoped.Confined.{
  Allowed, Keeps, inspection, deletion, creation, publication, perform_all, perform_all-Keeps,
}

-- Nothing is escaped.
abbrev plain : Texts
plain = record {
  is_control = λ c. false;
  is_valid_text = λ s. true;
  lower = λ s. s;
  path_unescape = λ s. ok s;
}

unescaped :
    (s t : String)
    → ◌≡◌ {A = Result String} (ok s) (ok t)
    → (t == s) ≡ false
    → length (codes t) < length (codes s)
unescaped s t e d = let same : s ≡ t = cc in absurd (differs (subst (λ x. (t == x) ≡ false) same d))
  where
    differs : (t == t) ≡ false → ⊥
    differs x = let y = beq_self t in cc

check_escaping_ends_example : ¬ (check_escaping plain 4 "/ab" ≡ none)
check_escaping_ends_example = check_escaping_ends plain 4 "/ab" unescaped (omega arith)

-- A world is the list of the paths that the protocol was given.
abbrev recording : Operations (List String)
recording = record {
  Reader = ℕ;
  inspect_directory = λ p w.
      (w, ok (record { root_exists = true; root_kind = directory; complete = true; entries = [] }));
  read_file = λ p w. (p ∷ w, ok none);
  write_file = λ p c w. (p ∷ w, ok tt);
  create_directory = λ p w. (p ∷ w, ok tt);
  delete_file = λ p w. (p ∷ w, ok tt);
  delete_directory = λ p w. (p ∷ w, err (text "not empty"));
  publish = λ p q w. (p ∷ q ∷ w, ok tt);
  capabilities = λ w. (w, err (text "not told"));
  close = return tt;
}

abbrev joined : String → String → String
joined a b = a <> "/" <> b

abbrev InScope : List String → Type 0
InScope w = All (Allowed "/r") w

abbrev recording_keeps : Keeps plain joined (List String) recording "/r" InScope
recording_keeps = record {
  inspecting = λ w i. i;
  reading = λ p w a i. (a, i);
  writing = λ p c w a i. (a, i);
  creating = λ p w a i. (a, i);
  deleting = λ p w a i. (a, i);
  removing = λ p w a i. (a, i);
  publishing = λ p q w a b i. (a, (b, i));
}

perform_all-Keeps_example : InScope (
    perform_all plain joined
      (List String)
      recording
      "/r"
      (inspection ∷ deletion "a/b" ∷ creation "" ∷ deletion "" ∷ publication "t" "../x" ∷ [])
      [])
perform_all-Keeps_example =
    perform_all-Keeps plain joined (List String) recording "/r" InScope
      (inspection ∷ deletion "a/b" ∷ creation "" ∷ deletion "" ∷ publication "t" "../x" ∷ []) []
      recording_keeps tt

abbrev backup_url : Url
backup_url = record {
  scheme = "sftp";
  opaque_part = "";
  host = "h:2022";
  hostname = "h";
  has_user = false;
  raw_query = "";
  force_query = false;
  path = "/a/b";
  escaped_path = "/a/b";
  port = "2022";
}

-- All that is parsed is one URL.
abbrev one_url : String → Result Url
one_url s = if s == "sftp://h:2022/a/b" then ok backup_url else err (text "not a URL")

abbrev backup_endpoint : RemoteEndpoint
backup_endpoint = record { protocol = "sftp"; host = "h"; port = pos 2022; path = "/a/b" }

escaped_url :
    (s : String) (u : Url)
    → one_url s ≡ ok u
    → ◌≡◌ {A = Result String} (ok u.escaped_path) (ok u.path)
escaped_url s u h = elim (Bool-cases (s == "sftp://h:2022/a/b")) [
  | inl b ↦
      let same : backup_url ≡ u = only (rw b at h) in
      subst (λ x. ◌≡◌ {A = Result String} (ok x.escaped_path) (ok x.path)) same refl
  | inr b ↦ absurd (ground arith)
]
  where
    only : {a b : Url} → ◌≡◌ {A = Result Url} (ok a) (ok b) → a ≡ b
    only h = cc

abbrev one_url_laws : UrlLaws plain one_url
one_url_laws = record {
  lowered = λ s. refl;
  not_emptied = λ s h. h;
  shorter = unescaped;
  escaped = escaped_url;
}

backup_parsed : parse_remote_endpoint plain one_url "sftp://h:2022/a/b" ≡ ok backup_endpoint
unfolding parse_remote_endpoint validate_remote_directory_path validate_remote_path_escaping
backup_parsed = refl

parse_remote_endpoint-IsValid_example : validate_remote_endpoint plain backup_endpoint ≡ none
parse_remote_endpoint-IsValid_example =
    parse_remote_endpoint-IsValid plain one_url "sftp://h:2022/a/b" backup_endpoint one_url_laws
      refl backup_parsed

abbrev four_versions : ConfigurationSnapshot
four_versions = record {
  schema_version = pos 2;
  interval_seconds = pos 60;
  mode = "backup";
  retention_count = pos 4;
}

abbrev watch_request : WatchCommandRequest
watch_request = record {
  source_root = "src";
  destination = WatchDestination.to_remote backup_endpoint;
}

abbrev backup_policy : RemoteWatchPolicySnapshot
backup_policy = record {
  source_root = "/src";
  destination = backup_endpoint;
  mode = "backup";
  interval_seconds = pos 60;
  retention_count = pos 4;
}

abbrev rooted : String → Result String
rooted s = ok ("/" <> s)

policy_built :
    build_remote_watch_policy_snapshot plain rooted watch_request four_versions ≡ ok backup_policy
unfolding build_remote_watch_policy_snapshot
policy_built = refl

build_remote_watch_policy_snapshot-IsChecked_example :
    IsChecked plain rooted watch_request four_versions backup_policy
build_remote_watch_policy_snapshot-IsChecked_example =
    build_remote_watch_policy_snapshot-IsChecked plain rooted watch_request four_versions
      backup_policy policy_built

abbrev small_os : Os
small_os = record (quiet_os ℕ) { clean = λ p. p }

-- No path contains another.
abbrev unrelated : Paths small_os
unrelated = record {
  absolute = λ p. return ("/" <> p);
  resolve = λ p. return p;
  relative = λ a b. ok "..";
  same_volume = λ a b. true;
  leads_up = λ p. false;
  read_names = λ h. return [];
  is_eof = λ e. false;
}

abbrev watch_arguments : List String
watch_arguments = "watch" ∷ "src" ∷ "sftp://h:2022/a/b" ∷ []

abbrev remote_watch : WatchCommandRequest
remote_watch = record {
  source_root = "/src";
  destination = WatchDestination.to_remote backup_endpoint;
}

watch_parsed :
    (parse_watch_command_request small_os unrelated plain one_url watch_arguments 0).1
    ≡ ok remote_watch
unfolding parse_watch_command_request after within_result split_colon spells is_windows_drive_path
    parse_remote_endpoint validate_remote_directory_path validate_remote_path_escaping
watch_parsed = refl

parse_watch_command_request-IsParsed_example :
    IsParsed small_os unrelated plain one_url watch_arguments 0 remote_watch
parse_watch_command_request-IsParsed_example =
    parse_watch_command_request-IsParsed small_os unrelated plain one_url watch_arguments 0
      remote_watch watch_parsed
