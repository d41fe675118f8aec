-- ===== src/Logging/Rotation/Bounds.antt =====
-- The size of the log file of src/rotating_file_destination.go.
use gosync.Base.{
  ℕ, ◌+◌, ◌≤◌, String, false, ltb, ok, ◌≡◌, ◌⊎◌, inl, inr, ap, sym, ◌∙◌, arith, Bool-cases,
}
use mathlib.Core.Path.{subst}
use gosync.Os.{Os}
use gosync.Os.Monad.{within_result, caught_result, attempt_result, when, after_pair, within_ok}
use gosync.Os.Monad.Holds.{raise_pair, attempt_world, caught_world}
use gosync.Logging.Rotation.{
  exceeds, size_of_entry, append_fault, get_active_log_file_size, append_to_active_log_file,
  rotate_active_log_file, shift_archives, tolerated, archive_log_file_path, write_sized,
  write_log_file, written, log_maximum_active_file_size, log_maximum_archive_count,
}

within_limit :
    (n added size : ℕ)
    → exceeds n added ≡ false
    → size ≤ n + added
    → (size ≤ log_maximum_active_file_size) ⊎ (size ≤ added)
unfolding exceeds
within_limit n added size b h = elim (Bool-cases (ltb 0 n)) [
  | inl p ↦ inl (ground arith)
  | inr p ↦ inr (ground arith)
]

module _ (os : Os) (byte_length : String → ℕ) (show : ℕ → String) where
  -- What the bound rests on: the size of a file in a world, as `os.Stat` tells it, that renaming a
  -- file away leaves none, and that an append adds no more than the bytes of the text.
  pub record Sizes (active : String) : Type 0 where
    pub size : os.World → ℕ
    pub told :
        (w : os.World) (n : ℕ)
        → size_of_entry os.is_not_exist (os.stat active w).1 ≡ ok n
        → size (os.stat active w).0 ≡ n
    pub renamed :
        (target : String) (w v : os.World) → os.rename active target w ≡ (v, ok tt) → size v ≡ 0
    pub appended :
        (s : String) (w : os.World) (v : os.World) (h : os.Handle)
        → os.open_append active 384 w ≡ (v, ok h)
        → size (os.close h (os.write_bytes h s v).0).0 ≤ size w + byte_length s

  -- An append that succeeds adds no more than the text.
  append_bound :
      (active formatted : String) (sizes : Sizes active) (w v : os.World)
      → append_to_active_log_file os byte_length show active formatted w ≡ (v, ok tt)
      → sizes.size v ≤ sizes.size w + byte_length formatted
  unfolding append_to_active_log_file
  append_bound active formatted sizes w v h =
      let (handle, (w1, (opened, h))) =
        after_pair (within_result "open active log file" (os.open_append active 384 w)) _ v tt h in
      let (outcome, (w2, (wrote, h))) =
        after_pair (written os byte_length show handle formatted w1) _ v tt h in
      let (closed, (w3, (shut, h))) = after_pair (attempt_result (os.close handle w2)) _ v tt h in
      let (_, same) = raise_pair (append_fault (byte_length formatted) outcome closed) w3 v h in
      subst (λ x. sizes.size x ≤ sizes.size w + byte_length formatted)
        (ap (λ x. (os.close handle x).0) (ap (λ p. p.0) wrote)
          ∙ (attempt_world (os.close handle w2) w3 closed shut ∙ same))
        (sizes.appended formatted w w1 handle
          (within_ok "open active log file" (os.open_append active 384 w) w1 handle opened))

  rotate_empties :
      (active : String) (sizes : Sizes active) (w v : os.World)
      → rotate_active_log_file os byte_length show active w ≡ (v, ok tt)
      → sizes.size v ≡ 0
  unfolding rotate_active_log_file
  rotate_empties active sizes w v h =
      let (failure, (w1, (_, h))) =
        after_pair
          (attempt_result (
            os.remove (archive_log_file_path os byte_length show active log_maximum_archive_count)
              w))
          _ v tt h in
      let (_, (w2, (_, h))) =
        after_pair (tolerated os byte_length show "remove oldest log archive" failure w1) _ v tt
          h in
      let (_, (w3, (_, h))) =
        after_pair (shift_archives os byte_length show active 3 w2) _ v tt h in
      sizes.renamed (archive_log_file_path os byte_length show active 1) w3 v (
        within_ok "archive active log file"
          (os.rename active (archive_log_file_path os byte_length show active 1) w3) v tt h)

  looked_size :
      (active : String) (sizes : Sizes active) (n : ℕ) (w v : os.World)
      → get_active_log_file_size os byte_length show active w ≡ (v, ok n)
      → sizes.size v ≡ n
  unfolding get_active_log_file_size
  looked_size active sizes n w v h =
      let (entry, (u, (found, h))) = after_pair (caught_result (os.stat active w)) _ v n h in
      let (same, entry_same) = caught_world (os.stat active w) u entry found in
      ap sizes.size (sym (ap (λ p. p.0) h) ∙ sym same)
      ∙ sizes.told w n (ap (size_of_entry os.is_not_exist) entry_same ∙ ap (λ p. p.1) h)

  write_sized_bound :
      (active formatted : String) (sizes : Sizes active) (n : ℕ) (w v : os.World)
      → sizes.size w ≡ n
      → write_sized os byte_length show active formatted n w ≡ (v, ok tt)
      → (sizes.size v ≤ log_maximum_active_file_size) ⊎ (sizes.size v ≤ byte_length formatted)
  unfolding write_sized
  write_sized_bound active formatted sizes n w v e h =
      let (_, (u, (rotated, h))) =
        after_pair
          (when (exceeds n (byte_length formatted))
            (rotate_active_log_file os byte_length show active) w)
          _ v tt h in
      let bound = append_bound active formatted sizes u v h in
      elim (Bool-cases (exceeds n (byte_length formatted))) [
        | inl b ↦
            let empty = rotate_empties active sizes w u (rw b at rotated) in
            inr (omega (arith, bound, empty))
        | inr b ↦
            let same : w ≡ u = ap (λ p. p.0) (rw b at rotated) in
            let kept : sizes.size u ≡ n = ap sizes.size (sym same) ∙ e in
            within_limit n (byte_length formatted) (sizes.size v) b (omega (arith, bound, kept))
      ]

  -- A write that succeeds leaves a log file within the limit, or one of the last record alone.
  pub write_log_file_bound :
      (directory formatted : String) (sizes : Sizes (os.join_path directory "gosync.log"))
      (w v : os.World)
      → write_log_file os byte_length show directory formatted w ≡ (v, ok tt)
      → (sizes.size v ≤ log_maximum_active_file_size) ⊎ (sizes.size v ≤ byte_length formatted)
  unfolding write_log_file get_active_log_file_size
  write_log_file_bound directory formatted sizes w v h =
      let active : String = os.join_path directory "gosync.log" in
      let (_, (w1, (_, h))) =
        after_pair (within_result "create log directory" (os.mkdir_all directory 448 w)) _ v tt h in
      let (n, (w2, (looked, h))) =
        after_pair (get_active_log_file_size os byte_length show active w1) _ v tt h in
      write_sized_bound active formatted sizes n w2 v (looked_size active sizes n w1 w2 looked) h
