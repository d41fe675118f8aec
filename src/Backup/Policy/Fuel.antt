-- ===== src/Backup/Policy/Fuel.antt =====
-- The fuel of the climb of src/backup_policy.go to a parent that exists.
use gosync.Base.{
  ℕ, zero, suc, ◌<◌, String, false, not, none, List, ◌∷◌, ◌==◌, string_Eq, if◌then◌else◌, some,
  Result, ok, err, ◌≡◌, text, wrap, arith, Bool-cases, inl, inr,
}
use gosync.Os.{Os, FileInfo}
use gosync.Os.Monad.{after, within_result, caught_result, throw}
use gosync.Backup.Policy.{Paths, climb, join_parts}

never_none :
    {A B W : Type 0} (x : W × Result A) (f : A → B)
    → (after x (λ a w. (w, ok (some (f a))))).1 ≡ ok none
    → ⊥
unfolding after
never_none (w, ok a) f h = cc
never_none (w, err e) f h = cc

module _ (os : Os) (paths : Paths os) where
  -- The climb never runs out of fuel that exceeds the depth of the path, for a depth that each step
  -- to a parent lowers, unless the parent is the path itself.
  pub climb_ends :
      (depth : String → ℕ) (n : ℕ) (current : String) (missing : List String) (w : os.World)
      → ((p : String) → (os.dir p == p) ≡ false → depth (os.dir p) < depth p)
      → depth current < n
      → ¬ ((climb os paths n current missing w).1 ≡ ok none)
  unfolding climb after caught_result
  climb_ends depth zero current missing w lower h = λ e. omega arith
  climb_ends depth (suc n) current missing w lower h = step (os.lstat current w) (λ v d.
      climb_ends depth n (os.dir current) (os.base current ∷ missing) v lower
        (omega (arith, lower current d)))
    where
      step :
          (x : os.World × Result FileInfo)
          → ((v : os.World)
              → (os.dir current == current) ≡ false
              → ((climb os paths n (os.dir current) (os.base current ∷ missing) v).1 ≡ ok none → ⊥))
          → ((after (caught_result x) (λ entry. (elim entry [
            | ok information ↦ (λ v.
                after
                  (within_result "resolve backup path parent aliases" (paths.resolve current v))
                  (λ r u. (u, ok (some (os.clean (join_parts os.join_path r missing))))))
            | err e ↦
                if not (os.is_not_exist e)
                then throw (wrap "inspect backup path parent" e)
                else if os.dir current == current
                then throw (text "backup path has no existing parent")
                else climb os paths n (os.dir current) (os.base current ∷ missing)
          ]))).1
                ≡ ok none
              → ⊥)
      step (v, ok information) rest e =
          never_none (within_result "resolve backup path parent aliases" (paths.resolve current v))
            (λ r. os.clean (join_parts os.join_path r missing)) e
      step (v, err e) rest h = elim (Bool-cases (os.is_not_exist e)) [
        | inr x ↦ absurd (ground arith)
        | inl x ↦ elim (Bool-cases (os.dir current == current)) [
          | inl y ↦ absurd (ground arith)
          | inr y ↦ rest v y (ground arith)
        ]
      ]
