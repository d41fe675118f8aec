-- ===== src/Sync/Commit/Verified.antt =====
-- What a commit of a confirmed state has verified.
use gosync.Base.{
  String, Bool, true, false, not, if◌then◌else◌, Error, Result, ok, err, ℕ, ◌≡◌, refl,
}
use gosync.Os.{Os}
use gosync.Os.Monad.{Io, within_result, within, ◌>>=◌, after_ok, within_ok, within_value, throw}
use gosync.Sync.Domain.{SynchronizationResult}
use gosync.Sync.Executor.{RootPaths}
use gosync.Sync.Inventory.{DirectoryInventory, inventories_have_equivalent_contents}
use gosync.Sync.Commit.{
  ConfirmedSynchronizationState, ConfirmedStateStore, is_incomplete, commit_inventories,
  verify_and_commit_synchronization, save, confirmed_entries,
}

module _ (os : Os) (encode : ConfirmedSynchronizationState → Result String)
    (decode : String → Result ConfirmedSynchronizationState) (digest : RootPaths → String)
    (now : os.World → ℕ) (build_inventory : String → Io os.World DirectoryInventory) where
  -- The two inventories that a commit has read, and the save behind them.
  pub data IsVerified (roots : RootPaths) (store : ConfirmedStateStore)
      (result : SynchronizationResult) (w : os.World) : Type 0 where
    verified :
        (first second : DirectoryInventory) (u v : os.World)
        → is_incomplete result ≡ false
        → build_inventory roots.first w ≡ (u, ok first)
        → build_inventory roots.second u ≡ (v, ok second)
        → inventories_have_equivalent_contents first second ≡ true
        → (save os encode decode digest now store
            (record {
              version = 1;
              roots = roots;
              entries = confirmed_entries first;
              completed_at = now v;
            })
            result
            v).1
          ≡ ok tt
        → IsVerified roots store result w

  -- If the commit succeeds, the run was complete, both roots were read one behind the other, their
  -- inventories compared equal, and the state with the sorted entries of the first one was saved.
  pub verify_and_commit_synchronization-IsVerified :
      (roots : RootPaths) (store : ConfirmedStateStore) (result : SynchronizationResult)
      (w : os.World)
      → (verify_and_commit_synchronization os encode decode digest now build_inventory roots store
          result w).1
        ≡ ok tt
      → IsVerified roots store result w
  unfolding verify_and_commit_synchronization commit_inventories
  verify_and_commit_synchronization-IsVerified roots store result w =
      guarded (is_incomplete result) refl
    where
      compared :
          (first second : DirectoryInventory) (v : os.World) (b : Bool)
          → ((if not b
              then (v, err (Error.text "synchronized directories have different contents"))
              else within "commit confirmed synchronization state"
                  (save os encode decode digest now store
                    (record {
                      version = 1;
                      roots = roots;
                      entries = confirmed_entries first;
                      completed_at = now v;
                    })
                    result)
                  v)).1
            ≡ ok tt
          → (b ≡ true)
            × ((save os encode decode digest now store
                  (record {
                    version = 1;
                    roots = roots;
                    entries = confirmed_entries first;
                    completed_at = now v;
                  })
                  result
                  v).1
                ≡ ok tt)
      compared first second v true h = (refl, within_value _ _ tt h)
      compared first second v false h = absurd cc

      guarded :
          (b : Bool)
          → is_incomplete result ≡ b
          → ((if b
                then throw (Error.text "synchronization is not complete")
                else (within "verify first directory" (build_inventory roots.first) >>= λ first.
                    within "verify second directory" (build_inventory roots.second) >>= λ second.
                    commit_inventories os encode decode digest now build_inventory roots store
                      result first second))
              w).1
            ≡ ok tt
          → IsVerified roots store result w
      guarded true e h = absurd cc
      guarded false e h =
          let (first, (u, (x, k))) =
            after_ok (within_result "verify first directory" (build_inventory roots.first w)) _ tt
              h in
          let (second, (v, (y, l))) =
            after_ok (within_result "verify second directory" (build_inventory roots.second u)) _ tt
              k in
          let (eq, saved) =
            compared first second v (inventories_have_equivalent_contents first second) l in
          verified first second u v e (within_ok _ _ u first x) (within_ok _ _ v second y) eq saved
