-- ===== src/Command/Parsed.antt =====
-- What src/command_parser.go has checked of the arguments that it accepts.
use gosync.Base.{
  String, true, false, not, ◌||◌, List, [], ◌∷◌, ◌==◌, string_Eq, if◌then◌else◌, Error, text,
  Result, ok, ◌≡◌, refl, sym, ap, ◌∙◌, arith, Bool-cases, inl, inr,
}
use mathlib.Core.Path.{subst}
use gosync.Os.{Os}
use gosync.Os.Monad.{
  within_result, ◌>>=◌, return, throw, lift, after_ok, guard_ok, within_value, within_ok,
}
use gosync.Sync.Executor.{RootPaths}
use gosync.Backup.Policy.{Paths, root_contains}
use gosync.Remote.Paths.{Texts}
use gosync.Remote.Endpoint.{Url, WatchDestination, WatchCommandRequest, parse_remote_endpoint}
use gosync.Command.{
  watch_usage, looks_like_url_argument, normalize_root_path, distinct_roots, validate_root_paths,
  remote_request, local_request, request_of, parse_watch_command_request,
}

module _ (os : Os) (paths : Paths os) (texts : Texts) (parse_url : String → Result Url) where
  -- A remote destination is what the third argument is parsed to, and a local one is its path, normalized
  -- in the world, and apart from the source root.
  abbrev pub Separated : String → os.World → String → WatchDestination → Type 0
  Separated argument w source (WatchDestination.to_remote e) =
      (looks_like_url_argument argument ≡ true)
      × (parse_remote_endpoint texts parse_url argument ≡ ok e)
  Separated argument w source (WatchDestination.to_local p) =
      (looks_like_url_argument argument ≡ false)
      × (((normalize_root_path os paths argument w).1 ≡ ok p)
          × ((root_contains paths source p ≡ ok false) × (root_contains paths p source ≡ ok false)))

  -- The root of a request is the source as it is normalized first, and its destination the other argument.
  abbrev pub IsRequest : String → String → os.World → WatchCommandRequest → Type 0
  IsRequest source destination w r =
      (u : os.World) × ((normalize_root_path os paths source w ≡ (u, ok r.source_root))
        × Separated destination u r.source_root r.destination)

  pub record IsParsed (arguments : List String) (w : os.World) (r : WatchCommandRequest)
      : Type 0 where
    pub source : String
    pub destination : String
    pub three : arguments ≡ "watch" ∷ source ∷ destination ∷ []
    pub local_source : looks_like_url_argument source ≡ false
    pub request : IsRequest source destination w r

  abbrev nested : Error
  nested = text "synchronization roots must be distinct and not nested"

  abbrev Apart : RootPaths → Type 0
  Apart r =
      (root_contains paths r.first r.second ≡ ok false)
      × (root_contains paths r.second r.first ≡ ok false)

  distinct :
      (first second : String) (w : os.World) (r : RootPaths)
      → (distinct_roots os paths first second w).1 ≡ ok r
      → Apart r × ((r.first ≡ first) × (r.second ≡ second))
  unfolding distinct_roots
  distinct first second w r h =
      let roots : RootPaths = record { first = first; second = second } in
      let (below, (w1, (e1, h))) =
        after_ok (w, root_contains paths first second)
          (λ b. lift (root_contains paths second first) >>= λ c.
            if b || c then throw nested else return roots)
          r h in
      let (above, (w2, (e2, h))) =
        after_ok (w1, root_contains paths second first)
          (λ c. if below || c then throw nested else return roots) r h in
      let (apart, h) = guard_ok (below || above) nested (return roots) w2 r h in
      let same : roots ≡ r = cc in
      subst (λ r. Apart r × ((r.first ≡ first) × (r.second ≡ second))) same
        ((ground arith, ground arith), (refl, refl))

  validated :
      (first second : String) (w : os.World) (r : RootPaths)
      → (validate_root_paths os paths first second w).1 ≡ ok r
      → (u : os.World) × ((normalize_root_path os paths first w ≡ (u, ok r.first))
          × (((normalize_root_path os paths second u).1 ≡ ok r.second) × Apart r))
  unfolding validate_root_paths
  validated first second w r h =
      let (f, (u, (e, h))) =
        after_ok (within_result "normalize first root" (normalize_root_path os paths first w)) _ r
          h in
      let (s, (v, (e', h))) =
        after_ok (within_result "normalize second root" (normalize_root_path os paths second u)) _ r
          h in
      let (apart, (same, same')) = distinct f s v r h in
      (
        u,
        (
          subst (λ x. normalize_root_path os paths first w ≡ (u, ok x)) (sym same)
              (within_ok "normalize first root" (normalize_root_path os paths first w) u f e),
          (
            subst (λ x. (normalize_root_path os paths second u).1 ≡ ok x) (sym same')
                (within_value "normalize second root" (normalize_root_path os paths second u) s
                  (ap (λ x. x.1) e')),
            apart,
          ),
        ),
      )

  locally :
      (source destination : String) (w : os.World) (r : WatchCommandRequest)
      → looks_like_url_argument destination ≡ false
      → (local_request os paths texts parse_url source destination w).1 ≡ ok r
      → IsRequest source destination w r
  unfolding local_request
  locally source destination w r plain h =
      let (roots, (v, (e, h))) =
        after_ok (within_result watch_usage (validate_root_paths os paths source destination w)) _ r
          h in
      let same : ◌≡◌ {A = WatchCommandRequest}
          (record {
            source_root = roots.first;
            destination = WatchDestination.to_local roots.second;
          })
          r =
        cc in
      let (u, (first, (second, apart))) = validated source destination w roots (
        within_value watch_usage (validate_root_paths os paths source destination w) roots
          (ap (λ x. x.1) e)) in
      subst (IsRequest source destination w) same (u, (first, (plain, (second, apart))))

  remotely :
      (source destination : String) (w : os.World) (r : WatchCommandRequest)
      → looks_like_url_argument destination ≡ true
      → (remote_request os paths texts parse_url source destination w).1 ≡ ok r
      → IsRequest source destination w r
  unfolding remote_request
  remotely source destination w r url h =
      let (endpoint, (v, (e, h))) =
        after_ok
          (within_result "invalid remote destination"
            (w, parse_remote_endpoint texts parse_url destination))
          _ r h in
      let (root, (u, (e', h))) =
        after_ok
          (within_result "normalize local source directory" (normalize_root_path os paths source v))
          _ r h in
      let same : ◌≡◌ {A = WatchCommandRequest}
          (record { source_root = root; destination = WatchDestination.to_remote endpoint }) r =
        cc in
      let parsed =
        within_ok "invalid remote destination"
          (w, parse_remote_endpoint texts parse_url destination) v endpoint e in
      let here : w ≡ v = ap (λ x. x.0) parsed in
      subst (IsRequest source destination w) same (
        u,
        (
          ap (normalize_root_path os paths source) here
              ∙ within_ok "normalize local source directory" (normalize_root_path os paths source v)
                  u root e',
          (url, ap (λ x. x.1) parsed),
        ),
      )

  -- A request that is parsed comes from three arguments, `watch`, a source that is no URL and a destination.
  -- Its source root is the normalized source. A remote destination is what the parser of endpoints makes of
  -- the third argument; a local one is the third argument normalized, and neither root contains the other.
  pub parse_watch_command_request-IsParsed :
      (arguments : List String) (w : os.World) (r : WatchCommandRequest)
      → (parse_watch_command_request os paths texts parse_url arguments w).1 ≡ ok r
      → IsParsed arguments w r
  unfolding parse_watch_command_request request_of
  parse_watch_command_request-IsParsed [] w r h = absurd cc
  parse_watch_command_request-IsParsed (a ∷ []) w r h = absurd cc
  parse_watch_command_request-IsParsed (a ∷ b ∷ []) w r h = absurd cc
  parse_watch_command_request-IsParsed (a ∷ b ∷ c ∷ d ∷ rest) w r h = absurd cc
  parse_watch_command_request-IsParsed (a ∷ source ∷ destination ∷ []) w r h =
      let (named, h) =
        guard_ok (not (a == "watch")) (text watch_usage)
          (request_of os paths texts parse_url source destination) w r h in
      let (plain, h) =
        guard_ok (looks_like_url_argument source) (text "watch source must be a local directory")
          (if looks_like_url_argument destination
            then remote_request os paths texts parse_url source destination
            else local_request os paths texts parse_url source destination)
          w r h in
      record {
        source = source;
        destination = destination;
        three =
            ap (λ x. x ∷ source ∷ destination ∷ [])
              ((string_Eq.beq_iff a "watch").0 (ground arith));
        local_source = plain;
        request = elim (Bool-cases (looks_like_url_argument destination)) [
          | inl url ↦ remotely source destination w r url (rw url at h)
          | inr other ↦ locally source destination w r other (rw other at h)
        ];
      }
