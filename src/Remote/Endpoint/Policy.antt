-- ===== src/Remote/Endpoint/Policy.antt =====
-- What the policy of a remote watch in src/remote_watch_policy.go has been checked for.
use gosync.Base.{
  String, false, not, ◌&&◌, Option, none, some, ◌==◌, string_Eq, Error, text, Result, ok, err,
  within, check_then, fail_if_then, passed_on, ◌≡◌, ◌⊎◌, refl, Bool-cases, inl, inr, arith,
}
use mathlib.Core.Path.{subst}
use gosync.Config.Domain.{
  ConfigurationSnapshot, validate_configuration_snapshot, unidirectional, backup,
}
use gosync.Remote.Paths.{Texts}
use gosync.Remote.Endpoint.{
  RemoteEndpoint, RemoteWatchPolicySnapshot, WatchDestination, WatchCommandRequest, remote_endpoint,
  in_context, validate_remote_endpoint, build_remote_watch_policy_snapshot,
}

pub record IsChecked (texts : Texts) (normalize : String → Result String)
    (request : WatchCommandRequest) (c : ConfigurationSnapshot) (p : RemoteWatchPolicySnapshot)
    : Type 0 where
  pub remote : request.destination ≡ WatchDestination.to_remote p.destination
  pub endpoint : validate_remote_endpoint texts p.destination ≡ none
  pub configuration : validate_configuration_snapshot c ≡ none
  pub one_way : (p.mode ≡ unidirectional) ⊎ (p.mode ≡ backup)
  pub same_mode : p.mode ≡ c.mode
  pub normalized : normalize request.source_root ≡ ok p.source_root

is_remote :
    (d : WatchDestination) (e : RemoteEndpoint)
    → remote_endpoint d ≡ ok e
    → d ≡ WatchDestination.to_remote e
is_remote (WatchDestination.to_local s) e h = cc
is_remote (WatchDestination.to_remote f) e h = cc

no_error : (s : String) (o : Option Error) → in_context s o ≡ none → o ≡ none
no_error s none h = refl
no_error s (some e) h = cc

within_value : {A : Type 0} (s : String) (r : Result A) (a : A) → within s r ≡ ok a → r ≡ ok a
within_value s (ok b) a h = h
within_value s (err e) a h = cc

one_of :
    (m : String)
    → (not (m == unidirectional) && not (m == backup)) ≡ false
    → (m ≡ unidirectional) ⊎ (m ≡ backup)
one_of m h = elim (Bool-cases (m == unidirectional)) [
  | inl a ↦ inl ((string_Eq.beq_iff m unidirectional).0 a)
  | inr a ↦ elim (Bool-cases (m == backup)) [
    | inl b ↦ inr ((string_Eq.beq_iff m backup).0 b)
    | inr b ↦ absurd (ground arith)
  ]
]

-- A policy that is built is for a remote destination that passes the validation and a valid configuration
-- of a mode with one direction, whose mode it has, and for the normalized source.
pub build_remote_watch_policy_snapshot-IsChecked :
    (texts : Texts) (normalize : String → Result String) (request : WatchCommandRequest)
    (c : ConfigurationSnapshot) (p : RemoteWatchPolicySnapshot)
    → build_remote_watch_policy_snapshot texts normalize request c ≡ ok p
    → IsChecked texts normalize request c p
unfolding build_remote_watch_policy_snapshot
build_remote_watch_policy_snapshot-IsChecked texts normalize request c p h =
    let (e, (remote, h)) = passed_on (remote_endpoint request.destination) _ h in
    let (endpoint, h) = check_then (validate_remote_endpoint texts e) _ h in
    let (configuration, h) =
      check_then
        (in_context "validate remote watch configuration" (validate_configuration_snapshot c)) _
        h in
    let (mode, h) =
      fail_if_then (not (c.mode == unidirectional) && not (c.mode == backup))
        (text "remote destinations support only unidirectional and BACKUP modes") _ h in
    let (root, (normalized, h)) =
      passed_on (within "normalize remote watch source directory" (normalize request.source_root)) _
        h in
    subst (IsChecked texts normalize request c) (ok_value h) (record {
      remote = is_remote request.destination e remote;
      endpoint = endpoint;
      configuration =
          no_error "validate remote watch configuration" (validate_configuration_snapshot c)
            configuration;
      one_way = one_of c.mode mode;
      same_mode = refl;
      normalized =
          within_value "normalize remote watch source directory" (normalize request.source_root)
            root normalized;
    })
  where
    ok_value :
        {a b : RemoteWatchPolicySnapshot}
        → ◌≡◌ {A = Result RemoteWatchPolicySnapshot} (ok a) (ok b)
        → a ≡ b
    ok_value h = cc
