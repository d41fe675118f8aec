-- ===== src/Remote/Scoped/Confined.antt =====
-- The paths that a scoped destination of src/remote_contract.go hands to the protocol.
use gosync.Base.{
  String, Bool, true, false, Option, none, some, ◌==◌, string_Eq, Error, ok, List, [], ◌∷◌, ◌≡◌,
  ◌⊎◌, inl, inr, Bool-cases, Option-cases, arith,
}
use mathlib.Core.Path.{subst}
use gosync.Os.Monad.{Io, after, within_result, raise, within_value}
use gosync.Os.Monad.Holds.{within_keeps, after_keeps}
use gosync.Remote.Paths.{Texts, relative_path_error}
use gosync.Remote.Contract.{validate_remote_directory_inspection}
use gosync.Remote.Scoped.{
  Operations, is_below, resolve_path, inspect, read_file, write_file, create_directory, delete_file,
  delete_directory, publish_selected, publish, present,
}

-- The root itself, or a path behind the root and a slash.
abbrev pub Allowed : String → String → Type 0
Allowed root path = (path ≡ root) ⊎ (is_below root path ≡ true)

module _ (texts : Texts) (join_path : String → String → String) where
  pub resolve_path-Allowed :
      (root value : String) (allow : Bool) (path : String)
      → resolve_path texts join_path root value allow ≡ ok path
      → Allowed root path
  unfolding resolve_path
  resolve_path-Allowed root value allow path h = elim (Bool-cases (value == "")) [
    | inl v ↦ elim (Bool-cases allow) [ inl a ↦ inl (ground arith) | inr a ↦ absurd (ground arith) ]
    | inr v ↦ elim (Option-cases (relative_path_error texts value)) [
      | inr (e, r) ↦ absurd (ground arith)
      | inl r ↦ elim (Bool-cases (is_below root (join_path root value))) [
        | inl b ↦ inr (subst (λ p. is_below root p ≡ true) (ground arith) b)
        | inr b ↦ absurd (ground arith)
      ]
    ]
  ]

  module _ (World : Type 0) (operations : Operations World) (root : String) where
    -- Each operation of the protocol keeps a property of worlds at the paths in scope.
    pub record Keeps (I : World → Type 0) : Type 0 where
      pub inspecting : (w : World) → I w → I (operations.inspect_directory root w).0
      pub reading : (p : String) (w : World) → Allowed root p → I w → I (operations.read_file p w).0
      pub writing :
          (p : String) (c : operations.Reader) (w : World)
          → Allowed root p
          → I w
          → I (operations.write_file p c w).0
      pub creating :
          (p : String) (w : World) → Allowed root p → I w → I (operations.create_directory p w).0
      pub deleting :
          (p : String) (w : World) → Allowed root p → I w → I (operations.delete_file p w).0
      pub removing :
          (p : String) (w : World) → Allowed root p → I w → I (operations.delete_directory p w).0
      pub publishing :
          (p q : String) (w : World)
          → Allowed root p
          → Allowed root q
          → I w
          → I (operations.publish p q w).0

    -- A call of a scoped destination, with any path.
    pub data Request : Type 0 where
      inspection : Request
      reading creation deletion removal : String → Request
      writing : String → Option operations.Reader → Request
      publication : String → String → Request

    unfoldable pub perform : Request → World → World
    unfolding inspect read_file write_file create_directory delete_file delete_directory publish
    perform inspection w = (inspect texts join_path World operations root w).0
    perform (Request.reading p) w = (read_file texts join_path World operations root p w).0
    perform (creation p) w = (create_directory texts join_path World operations root p w).0
    perform (deletion p) w = (delete_file texts join_path World operations root p w).0
    perform (removal p) w = (delete_directory texts join_path World operations root p w).0
    perform (Request.writing p c) w = (write_file texts join_path World operations root p c w).0
    perform (publication p q) w = (publish texts join_path World operations root p q w).0

    abbrev pub perform_all : List Request → World → World
    perform_all [] w = w
    perform_all (r ∷ rs) w = perform_all rs (perform r w)

    at_resolved :
        {A : Type 0} (I : World → Type 0) (value : String) (allow : Bool) (f : String → Io World A)
        (w : World)
        → I w
        → ((p : String) (v : World) → Allowed root p → I v → I (f p v).0)
        → I (after (w, resolve_path texts join_path root value allow) f).0
    at_resolved I value allow f w i k =
        after_keeps I (w, resolve_path texts join_path root value allow) f i
          (λ p v e j. k p v (resolve_path-Allowed root value allow p e) j)

    raise_keeps : (I : World → Type 0) (o : Option Error) (w : World) → I w → I (raise o w).0
    raise_keeps I none w i = i
    raise_keeps I (some e) w i = i

    present_keeps :
        (I : World → Type 0) (o : Option operations.Reader) (w : World)
        → I w
        → I (present texts join_path World operations root o w).0
    present_keeps I none w i = i
    present_keeps I (some r) w i = i

    publish_keeps :
        (I : World → Type 0) (c f : String) (w : World)
        → Keeps I
        → Allowed root c
        → Allowed root f
        → I w
        → I (publish_selected texts join_path World operations root c f w).0
    unfolding publish_selected
    publish_keeps I c f w k a b i = elim (Bool-cases (c == f)) [
      | inl e ↦ rw e i
      | inr e ↦ rw e (
          within_keeps I "publish remote file" (operations.publish c f w)
            (k.publishing c f w a b i))
    ]

    perform_keeps : (I : World → Type 0) (r : Request) (w : World) → Keeps I → I w → I (perform r w)
    unfolding perform inspect read_file write_file create_directory delete_file delete_directory
        publish
    perform_keeps I inspection w k i =
        after_keeps I
          (within_result "inspect selected remote directory" (operations.inspect_directory root w))
          _ (within_keeps I _ (operations.inspect_directory root w) (k.inspecting w i))
          (λ found v e j.
            after_keeps I (raise (validate_remote_directory_inspection texts found) v) _
              (raise_keeps I (validate_remote_directory_inspection texts found) v j) (λ _ u g x. x))
    perform_keeps I (Request.reading p) w k i = at_resolved I p false _ w i (λ q v a j.
        after_keeps I (within_result "read remote file %q" (operations.read_file q v)) _
          (within_keeps I _ (operations.read_file q v) (k.reading q v a j))
          (λ reader u e x. present_keeps I reader u x))
    perform_keeps I (creation p) w k i =
        at_resolved I p true _ w i (λ q v a j. within_keeps I _ _ (k.creating q v a j))
    perform_keeps I (deletion p) w k i =
        at_resolved I p false _ w i (λ q v a j. within_keeps I _ _ (k.deleting q v a j))
    perform_keeps I (removal p) w k i =
        at_resolved I p false _ w i (λ q v a j. within_keeps I _ _ (k.removing q v a j))
    perform_keeps I (Request.writing p none) w k i = i
    perform_keeps I (Request.writing p (some c)) w k i =
        at_resolved I p false _ w i (λ q v a j. within_keeps I _ _ (k.writing q c v a j))
    perform_keeps I (publication p q) w k i =
        after_keeps I
          (within_result "resolve remote publication candidate"
            (w, resolve_path texts join_path root p false))
          _ (within_keeps I _ (w, resolve_path texts join_path root p false) i)
          (λ c v e j.
            after_keeps I
              (within_result "resolve remote publication destination"
                (v, resolve_path texts join_path root q false))
              _ (within_keeps I _ (v, resolve_path texts join_path root q false) j)
              (λ f u g x.
                publish_keeps I c f u k
                  (resolve_path-Allowed root p false c
                    (within_value _ (w, resolve_path texts join_path root p false) c e))
                  (resolve_path-Allowed root q false f
                    (within_value _ (v, resolve_path texts join_path root q false) f g))
                  x))

    -- Whatever sequence of calls a scoped destination gets, with whatever paths, a property of worlds that the
    -- protocol's operations keep at the root and below it still holds at the end.
    pub perform_all-Keeps :
        (I : World → Type 0) (rs : List Request) (w : World) → Keeps I → I w → I (perform_all rs w)
    perform_all-Keeps I [] w k i = i
    perform_all-Keeps I (r ∷ rs) w k i =
        perform_all-Keeps I rs (perform r w) k (perform_keeps I r w k i)
