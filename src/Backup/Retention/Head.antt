-- ===== src/Backup/Retention/Head.antt =====
-- One round of the retention in src/backup_recovery_retention.go: the oldest record marked, and removed.
use mathlib.Core.Path.{subst}
use gosync.Base.{
  ◌<◌, String, true, false, none, some, List, [], ◌∷◌, ◌==◌, nat_Eq, string_Eq, contains, ok, All,
  ◌≡◌, refl, arith, Bool-cases, inl, inr, beq_self, ap,
}
use text.Mathlib.TextEquality.{eq_iff}
use gosync.Backup.SetState.{
  BackupArchiveRecord, BackupSetState, is_pending, is_supported, is_confirmed, matches_removal,
  pending_removal,
}
use gosync.Backup.SetState.Valid.{
  IsFormed, Distinct, Ascending, pending_count, MatchesPending, IsValid,
}
use gosync.Backup.Retention.{
  without_archive, finished_state, marked_state, mark_records, removal_of,
}

-- A state whose oldest record is marked, and the state without it.
abbrev pub head_marked :
    BackupSetState → BackupArchiveRecord → List BackupArchiveRecord → BackupSetState
head_marked s r rest = record s {
  archives = record r { lifecycle = pending_removal } ∷ rest;
  pending_removal = some (removal_of r);
}

abbrev pub tail_state : BackupSetState → List BackupArchiveRecord → BackupSetState
tail_state s rest = record s { archives = rest; pending_removal = none }

other_id :
    (id : String) (before : List String) (x : String)
    → contains id before ≡ true
    → contains x before ≡ false
    → (x == id) ≡ false
other_id id before x h k = elim (Bool-cases (x == id)) [
  | inl e ↦ absurd (differ ((eq_iff x id).0 e))
  | inr e ↦ e
]
  where
    differ : x ≡ id → ⊥
    differ e =
        let k' : contains id before ≡ false = subst (λ y. contains y before ≡ false) e k in cc

mark_records_fresh :
    (r : BackupArchiveRecord) (before : List String) (rs : List BackupArchiveRecord)
    → contains r.archive_id before ≡ true
    → Distinct (λ x. x.archive_id) before rs
    → mark_records r rs ≡ rs
unfolding mark_records
mark_records_fresh r before [] h d = refl
mark_records_fresh r before (x ∷ xs) h d =
    rw (other_id r.archive_id before x.archive_id h d.0)
      (ap (◌∷◌ x) (mark_records_fresh r (x.archive_id ∷ before) xs (ground arith) d.1))

without_archive_fresh :
    (id : String) (before : List String) (rs : List BackupArchiveRecord)
    → contains id before ≡ true
    → Distinct (λ x. x.archive_id) before rs
    → without_archive id rs ≡ rs
unfolding without_archive
without_archive_fresh id before [] h d = refl
without_archive_fresh id before (x ∷ xs) h d =
    rw (other_id id before x.archive_id h d.0)
      (ap (◌∷◌ x) (without_archive_fresh id (x.archive_id ∷ before) xs (ground arith) d.1))

contains_first : (id : String) → contains id (id ∷ []) ≡ true
contains_first id = rw (beq_self id)

pub marked_state_head :
    (s : BackupSetState) (r : BackupArchiveRecord) (rest : List BackupArchiveRecord)
    → s.archives ≡ r ∷ rest
    → is_confirmed r.lifecycle ≡ true
    → Distinct (λ x. x.archive_id) (r.archive_id ∷ []) rest
    → marked_state s r ≡ ok (head_marked s r rest)
unfolding marked_state
marked_state_head s r rest e c d = rw e (
    rw (beq_self r.archive_id, beq_self r.file_name, beq_self r.confirmation_order, c)
      (ap
        (λ (xs : List BackupArchiveRecord). ok (record s {
          archives = record r { lifecycle = pending_removal } ∷ xs;
          pending_removal = some (removal_of r);
        }))
        (mark_records_fresh r (r.archive_id ∷ []) rest (contains_first r.archive_id) d)))

pub finished_head :
    (s : BackupSetState) (r : BackupArchiveRecord) (rest : List BackupArchiveRecord)
    → Distinct (λ x. x.archive_id) (r.archive_id ∷ []) rest
    → finished_state (head_marked s r rest) (removal_of r) ≡ tail_state s rest
unfolding without_archive
finished_head s r rest d = rw (beq_self r.archive_id) (
    ap (tail_state s)
      (without_archive_fresh r.archive_id (r.archive_id ∷ []) rest (contains_first r.archive_id) d))

pub head_marked-IsValid :
    (s : BackupSetState) (r : BackupArchiveRecord) (rest : List BackupArchiveRecord)
    → s.archives ≡ r ∷ rest
    → s.pending_removal ≡ none
    → IsValid s
    → IsValid (head_marked s r rest)
unfolding pending_count matches_removal is_supported is_pending
head_marked-IsValid s r rest e p v =
    let f = subst (All IsFormed) e v.formed in
    let a = subst (Ascending none) e v.ascending in
    let i = subst (Distinct (λ x. x.archive_id) []) e v.ids in
    let n = subst (Distinct (λ x. x.file_name) []) e v.names in
    let b = subst (All (λ x. x.confirmation_order < s.next_confirmation_order)) e v.below in
    let m = subst (λ o. MatchesPending o s.archives) p v.pending in
    let k : pending_count (r ∷ rest) ≡ 0 = subst (λ xs. pending_count xs ≡ 0) e m in
    record {
      version = v.version;
      has_destination = v.has_destination;
      has_source = v.has_source;
      next_positive = v.next_positive;
      formed = (
        record {
          has_id = f.0.has_id;
          has_name = f.0.has_name;
          positive = f.0.positive;
          created = f.0.created;
          whole_digest = f.0.whole_digest;
          inventory_digest = f.0.inventory_digest;
          supported = refl;
        },
        f.1,
      );
      ascending = a;
      ids = i;
      names = n;
      below = b;
      pending = (
        omega arith,
        rw (beq_self r.archive_id, beq_self r.file_name, beq_self r.confirmation_order) refl,
      );
    }
