-- ===== src/Sync/Executor/Handles.antt =====
-- The open handles during a copy of src/synchronization_executor.go.
use gosync.Base.{
  ℕ, zero, suc, String, Option, none, some, List, [], ◌∷◌, Error, Result, ok, err, if◌then◌else◌,
  Eq, ◌==◌, beq_self, ◌≡◌, refl, ◌∙◌, ap,
}
use gosync.Os.{Os, FileType, directory_type, regular_type, symlink_type, special_type}
use gosync.Os.Monad.{Io, after, within_result, attempt_result}
use gosync.Sync.Executor.{
  copy_synchronization_path, copy_by_type, copy_directory, copy_entries, copy_file,
  with_destination, transfer, first_failure,
}

-- The first occurrence of a handle taken out.
abbrev pub erase {ℓ} : {H : Type ℓ} ⦃e : Eq H⦄ → H → List H → List H
erase h [] = []
erase h (j ∷ js) = let rest = erase h js in if j == h then js else j ∷ rest

abbrev pub opened_after : {H W : Type 0} → W × Result H → List H → List H
opened_after (w, ok h) hs = h ∷ hs
opened_after (w, err e) hs = hs

-- What is assumed of the calls: `opened` lists the open handles; an open that succeeds adds one, a
-- close releases its handle whatever it returns, and the other calls change nothing.
pub record TracksHandles (os : Os) ⦃e : Eq os.Handle⦄ (opened : os.World → List os.Handle)
    : Type 0 where
  pub opened-open_read :
      (p : String) (w : os.World)
      → opened (os.open_read p w).0 ≡ opened_after (os.open_read p w) (opened w)
  pub opened-open_write :
      (p : String) (m : ℕ) (w : os.World)
      → opened (os.open_write p m w).0 ≡ opened_after (os.open_write p m w) (opened w)
  pub opened-close : (h : os.Handle) (w : os.World) → opened (os.close h w).0 ≡ erase h (opened w)
  pub opened-copy : (d s : os.Handle) (w : os.World) → opened (os.copy d s w).0 ≡ opened w
  pub opened-lstat : (p : String) (w : os.World) → opened (os.lstat p w).0 ≡ opened w
  pub opened-mkdir_all :
      (p : String) (m : ℕ) (w : os.World) → opened (os.mkdir_all p m w).0 ≡ opened w
  pub opened-remove_all : (p : String) (w : os.World) → opened (os.remove_all p w).0 ≡ opened w
  pub opened-read_dir : (p : String) (w : os.World) → opened (os.read_dir p w).0 ≡ opened w

module _ (os : Os) ⦃e : Eq os.Handle⦄ (opened : os.World → List os.Handle)
    (t : TracksHandles os opened) where
  erase_self : (h : os.Handle) (hs : List os.Handle) → erase h (h ∷ hs) ≡ hs
  erase_self h hs = rw (beq_self h)

  opened-first_failure :
      (a b c : Option Error) (w : os.World) → opened (first_failure os a b c w).0 ≡ opened w
  unfolding first_failure
  opened-first_failure (some x) b c w = refl
  opened-first_failure none (some x) c w = refl
  opened-first_failure none none (some x) w = refl
  opened-first_failure none none none w = refl

  opened-transfer :
      (s d : os.Handle) (hs : List os.Handle) (w : os.World)
      → opened w ≡ d ∷ s ∷ hs
      → opened (transfer os s d w).0 ≡ hs
  unfolding transfer after attempt_result
  opened-transfer s d hs w h =
      let w1 = (os.copy d s w).0 in
      let w2 = (os.close d w1).0 in
      opened-first_failure _ _ _ (os.close s w2).0
      ∙ t.opened-close s w2
      ∙ ap (erase s)
          (t.opened-close d w1 ∙ ap (erase d) (t.opened-copy d s w ∙ h) ∙ erase_self d (s ∷ hs))
      ∙ erase_self s hs

  opened-with_destination :
      (s : os.Handle) (hs : List os.Handle) (r : os.World × Result os.Handle)
      → opened r.0 ≡ opened_after r (s ∷ hs)
      → opened (with_destination os s r).0 ≡ hs
  unfolding with_destination after attempt_result
  opened-with_destination s hs (w', ok d) h = opened-transfer s d hs w' h
  opened-with_destination s hs (w', err x) h =
      t.opened-close s w' ∙ ap (erase s) h ∙ erase_self s hs

  -- A call that keeps the handles, as its own context wraps it.
  opened-within :
      {A : Type 0} (s : String) (r : os.World × Result A)
      → opened (within_result s r).0 ≡ opened r.0
  unfolding within_result
  opened-within s (w, ok a) = refl
  opened-within s (w, err x) = refl

  opened-after :
      {A B : Type 0} (hs : List os.Handle) (r : os.World × Result A) (f : A → Io os.World B)
      → opened r.0 ≡ hs
      → ((a : A) (w : os.World) → opened w ≡ hs → opened (f a w).0 ≡ hs)
      → opened (after r f).0 ≡ hs
  unfolding after
  opened-after hs (w, ok a) f h k = k a w h
  opened-after hs (w, err x) f h k = h

  -- The open of the source: its handle is released by what follows.
  opened-after_open :
      (hs : List os.Handle) (r : os.World × Result os.Handle)
      (f : os.Handle → Io os.World (Unit {0}))
      → opened r.0 ≡ opened_after r hs
      → ((s : os.Handle) (w : os.World) → opened w ≡ s ∷ hs → opened (f s w).0 ≡ hs)
      → opened (after r f).0 ≡ hs
  unfolding after
  opened-after_open hs (w, ok s) f h k = k s w h
  opened-after_open hs (w, err x) f h k = h

  opened_after-within :
      (s : String) (r : os.World × Result os.Handle) (hs : List os.Handle)
      → opened r.0 ≡ opened_after r hs
      → opened (within_result s r).0 ≡ opened_after (within_result s r) hs
  unfolding within_result
  opened_after-within s (w, ok h) hs k = k
  opened_after-within s (w, err x) hs k = k

  opened-copy_file :
      (s d : String) (m : ℕ) (w : os.World) → opened (copy_file os s d m w).0 ≡ opened w
  unfolding copy_file
  opened-copy_file s d m w =
      opened-after (opened w) _ _ (opened-within _ _ ∙ t.opened-mkdir_all _ _ w) λ _ w1 h1.
        opened-after (opened w) _ _ (opened-within _ _ ∙ t.opened-remove_all _ w1 ∙ h1) λ _ w2 h2.
          opened-after_open (opened w) _ _
            (opened_after-within _ (os.open_read s w2) (opened w)
              (rw (← h2) (t.opened-open_read s w2)))
            λ source w3 h3.
              opened-with_destination source (opened w) (os.open_write d m w3)
                (rw (← h3) (t.opened-open_write d m w3))

  opened-copy_entries :
      (f : String → String → Io os.World (Unit {0}))
      → ((s d : String) (w : os.World) → opened (f s d w).0 ≡ opened w)
      → (s d : String) (names : List String) (w : os.World)
      → opened (copy_entries os f s d names w).0 ≡ opened w
  unfolding copy_entries
  opened-copy_entries f k s d [] w = refl
  opened-copy_entries f k s d (n ∷ ns) w =
      opened-after (opened w) (f _ _ w) _ (k _ _ w)
        λ _ w1 h1. opened-copy_entries f k s d ns w1 ∙ h1

  opened-copy_directory :
      (f : String → String → Io os.World (Unit {0}))
      → ((s d : String) (w : os.World) → opened (f s d w).0 ≡ opened w)
      → (s d : String) (m : ℕ) (w : os.World) → opened (copy_directory os f s d m w).0 ≡ opened w
  unfolding copy_directory
  opened-copy_directory f k s d m w =
      opened-after (opened w) _ _ (opened-within _ _ ∙ t.opened-remove_all _ w) λ _ w1 h1.
        opened-after (opened w) _ _ (opened-within _ _ ∙ t.opened-mkdir_all _ _ w1 ∙ h1) λ _ w2 h2.
          opened-after (opened w) _ _ (opened-within _ _ ∙ t.opened-read_dir _ w2 ∙ h2)
            λ names w3 h3. opened-copy_entries f k s d names w3 ∙ h3

  opened-copy_by_type :
      (f : String → String → Io os.World (Unit {0}))
      → ((s d : String) (w : os.World) → opened (f s d w).0 ≡ opened w)
      → (s d : String) (y : FileType) (m : ℕ) (w : os.World)
      → opened (copy_by_type os f s d y m w).0 ≡ opened w
  unfolding copy_by_type
  opened-copy_by_type f k s d directory_type m w = opened-copy_directory f k s d m w
  opened-copy_by_type f k s d regular_type m w = opened-copy_file s d m w
  opened-copy_by_type f k s d symlink_type m w = refl
  opened-copy_by_type f k s d special_type m w = refl

  -- If the calls track the open handles as assumed, a copy of a path of any type and depth, whether
  -- it succeeds or fails at any step, ends with the handles open that were open before.
  pub copy_releases_handles :
      (depth : ℕ) (s d : String) (w : os.World)
      → opened (copy_synchronization_path os depth s d w).0 ≡ opened w
  unfolding copy_synchronization_path
  copy_releases_handles zero s d w = refl
  copy_releases_handles (suc depth) s d w =
      opened-after (opened w) _ _ (opened-within _ _ ∙ t.opened-lstat s w) λ information w1 h1.
        opened-copy_by_type (copy_synchronization_path os depth) (copy_releases_handles depth) s d
          information.type_of information.permissions w1
        ∙ h1
