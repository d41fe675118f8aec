-- ===== src/Backup/Retention/Valid.antt =====
-- The states behind a removal in src/backup_recovery_retention.go, and their validity.
use gosync.Base.{
  ℕ, ◌+◌, ◌≤◌, String, Bool, true, false, not, Option, none, some, List, [], ◌∷◌, ◌==◌, nat_Eq,
  string_Eq, contains, any, All, ◌≡◌, arith, Bool-cases, inl, inr,
}
use mathlib.Core.Path.{subst}
use gosync.Backup.SetState.{
  BackupArchiveRecord, BackupRemovalState, BackupSetState, matches_removal,
}
use gosync.Backup.SetState.Valid.{
  Distinct, Above, Ascending, pending_count, MatchesPending, IsValid,
}
use gosync.Backup.Retention.{without_archive, finished_state}

module _ (id : String) where
  abbrev keeps : BackupArchiveRecord → Bool
  keeps r = not (r.archive_id == id)

  All-without_archive {κ} :
      (P : BackupArchiveRecord → Type κ) (rs : List BackupArchiveRecord)
      → All P rs
      → All P (without_archive id rs)
  unfolding without_archive
  All-without_archive P [] h = tt
  All-without_archive P (r ∷ rs) h = elim (Bool-cases (keeps r)) [
    | inl e ↦ rw e (h.0, All-without_archive P rs h.1)
    | inr e ↦ rw e (All-without_archive P rs h.1)
  ]

  Ascending-weaken :
      (m n : ℕ) (rs : List BackupArchiveRecord)
      → m ≤ n
      → Ascending (some n) rs
      → Ascending (some m) rs
  Ascending-weaken m n [] l h = tt
  Ascending-weaken m n (r ∷ rs) l h = (omega arith, h.1)

  Ascending-drop :
      (o : Option ℕ) (r : BackupArchiveRecord) (rs : List BackupArchiveRecord)
      → Above o r.confirmation_order
      → Ascending (some r.confirmation_order) rs
      → Ascending o rs
  Ascending-drop none r [] l h = tt
  Ascending-drop none r (x ∷ xs) l h = (tt, h.1)
  Ascending-drop (some m) r rs l h = Ascending-weaken m r.confirmation_order rs (omega arith) h

  Ascending-without_archive :
      (o : Option ℕ) (rs : List BackupArchiveRecord)
      → Ascending o rs
      → Ascending o (without_archive id rs)
  unfolding without_archive
  Ascending-without_archive o [] h = tt
  Ascending-without_archive o (r ∷ rs) h = elim (Bool-cases (keeps r)) [
    | inl e ↦ rw e (h.0, Ascending-without_archive (some r.confirmation_order) rs h.1)
    | inr e ↦ rw e (Ascending-without_archive o rs (Ascending-drop o r rs h.0 h.1))
  ]

-- More keys before a list make it harder to be distinct from them.
abbrev Covers : List String → List String → Type 0
Covers small big = (k : String) → contains k big ≡ false → contains k small ≡ false

Distinct-weaken :
    (key : BackupArchiveRecord → String) (small big : List String) (rs : List BackupArchiveRecord)
    → Covers small big
    → Distinct key big rs
    → Distinct key small rs
Distinct-weaken key small big [] c h = tt
Distinct-weaken key small big (r ∷ rs) c h = (
  c (key r) h.0,
  Distinct-weaken key (key r ∷ small) (key r ∷ big) rs (λ k n. ground (arith, c k)) h.1,
)

pub Distinct-drop :
    (key : BackupArchiveRecord → String) (k : String) (before : List String)
    (rs : List BackupArchiveRecord)
    → Distinct key (k ∷ before) rs
    → Distinct key before rs
Distinct-drop key k before rs h = Distinct-weaken key before (k ∷ before) rs (λ j n. ground arith) h

Distinct-without_archive :
    (id : String) (key : BackupArchiveRecord → String) (before : List String)
    (rs : List BackupArchiveRecord)
    → Distinct key before rs
    → Distinct key before (without_archive id rs)
unfolding without_archive
Distinct-without_archive id key before [] h = tt
Distinct-without_archive id key before (r ∷ rs) h = elim (Bool-cases (not (r.archive_id == id))) [
  | inl e ↦ rw e (h.0, Distinct-without_archive id key (key r ∷ before) rs h.1)
  | inr e ↦
      rw e (Distinct-without_archive id key before rs (Distinct-drop key (key r) before rs h.1))
]

pending_count-without_archive :
    (id : String) (rs : List BackupArchiveRecord)
    → pending_count (without_archive id rs) ≤ pending_count rs
unfolding without_archive pending_count
pending_count-without_archive id [] = omega arith
pending_count-without_archive id (r ∷ rs) = ground (arith, pending_count-without_archive id rs)

pending_count-without_removal :
    (p : BackupRemovalState) (rs : List BackupArchiveRecord)
    → any (matches_removal p) rs ≡ true
    → pending_count (without_archive p.archive_id rs) + 1 ≤ pending_count rs
unfolding without_archive pending_count matches_removal
pending_count-without_removal p [] h = cc
pending_count-without_removal p (r ∷ rs) h =
    ground
      (arith, pending_count-without_removal p rs, pending_count-without_archive p.archive_id rs)

-- Dropping the record that the pending removal of a valid state names leaves a valid state.
pub finished_state-IsValid :
    (s : BackupSetState) (p : BackupRemovalState)
    → IsValid s
    → s.pending_removal ≡ some p
    → IsValid (finished_state s p)
finished_state-IsValid s p v e =
    let m = subst (λ o. MatchesPending o s.archives) e v.pending in
    record {
      version = v.version;
      has_destination = v.has_destination;
      has_source = v.has_source;
      next_positive = v.next_positive;
      formed = All-without_archive p.archive_id _ s.archives v.formed;
      ascending = Ascending-without_archive p.archive_id none s.archives v.ascending;
      ids = Distinct-without_archive p.archive_id _ [] s.archives v.ids;
      names = Distinct-without_archive p.archive_id _ [] s.archives v.names;
      below = All-without_archive p.archive_id _ s.archives v.below;
      pending = omega (arith, pending_count-without_removal p s.archives m.1, m.0);
    }
