-- ===== src/Os/Candidate/Outcome.antt =====
-- What a replacement of Os/Candidate leaves of the two documents.
use gosync.Base.{
  String, Bool, true, false, not, Option, none, ◌==◌, string_Eq, if◌then◌else◌, Error, Result, ok,
  err, ap, ◌∙◌, ◌≡◌, refl, ◌⊎◌, inl, inr,
}
use gosync.Os.{Os, FileInfo}
use gosync.Os.Monad.{
  after, within_result, attempt_result, caught_result, ◌>>=◌, throw, within, attempt,
}
use gosync.Os.Candidate.{Messages, replace_document, replace_existing, replace_failed}

-- A call succeeds with this effect, or fails and leaves what `same` says.
abbrev pub Either : {W : Type 0} → W × Result (Unit {0}) → Type 0 → Type 0 → Type 0
Either x done same = ((x.1 ≡ ok tt) × done) ⊎ ((e : Error) × ((x.1 ≡ err e) × same))

-- The content of each path, and what the calls do with the contents: a call that fails leaves them.
pub record Documents (os : Os) : Type 0 where
  pub content : os.World → String → Option String
  pub stat_keeps : (p : String) (w : os.World) → content (os.stat p w).0 ≡ content w
  pub rename_effect :
      (p q : String) (w : os.World)
      → Either
          (os.rename p q w)
          (content (os.rename p q w).0 q ≡ content w p)
          (content (os.rename p q w).0 ≡ content w)
  pub remove_effect :
      (p : String) (w : os.World)
      → Either
          (os.remove p w)
          ((content (os.remove p w).0 p ≡ none)
            × ((q : String) → (q == p) ≡ false → content (os.remove p w).0 q ≡ content w q))
          (content (os.remove p w).0 ≡ content w)

module _ (os : Os) (m : Messages) (docs : Documents os) where
  -- The new document is active, or the old one still is, or the old one is gone and the new one
  -- stands in the candidate alone.
  pub data Outcome (active candidate : String) (w : os.World)
      : os.World × Result (Unit {0}) → Type 0 where
    replaced :
        (v : os.World)
        → docs.content v active ≡ docs.content w candidate
        → Outcome active candidate w (v, ok tt)
    kept :
        (v : os.World) (e : Error)
        → docs.content v active ≡ docs.content w active
        → docs.content v candidate ≡ docs.content w candidate
        → Outcome active candidate w (v, err e)
    removed :
        (v : os.World) (e : Error)
        → docs.content v active ≡ none
        → docs.content v candidate ≡ docs.content w candidate
        → Outcome active candidate w (v, err e)

  -- The two steps behind a rename that failed, on what the calls return.
  second_rename :
      (active candidate : String) (w u : os.World) (x : os.World × Result (Unit {0}))
      → docs.content u active ≡ none
      → docs.content u candidate ≡ docs.content w candidate
      → Either x
          (docs.content x.0 active ≡ docs.content u candidate)
          (docs.content x.0 ≡ docs.content u)
      → Outcome active candidate w (within_result m.replace_removed x)
  unfolding within_result
  second_rename active candidate w u (v, ok a) g h (inl (e, c)) = replaced v (c ∙ h)
  second_rename active candidate w u (v, ok a) g h (inr (e, (p, c))) = absurd cc
  second_rename active candidate w u (v, err a) g h (inl (e, c)) = absurd cc
  second_rename active candidate w u (v, err a) g h (inr (e, (p, c))) =
      removed v _ (ap (λ f. f active) c ∙ g) (ap (λ f. f candidate) c ∙ h)

  removal :
      (active candidate : String) (w u : os.World) (x : os.World × Result (Unit {0}))
      → docs.content u ≡ docs.content w
      → (candidate == active) ≡ false
      → Either x
          ((docs.content x.0 active ≡ none)
            × ((q : String) → (q == active) ≡ false → docs.content x.0 q ≡ docs.content u q))
          (docs.content x.0 ≡ docs.content u)
      → Outcome active candidate w (
          after
            (within_result m.replace_existing x)
            (λ _. within m.replace_removed (os.rename candidate active)))
  unfolding within_result after
  removal active candidate w u (v, ok a) s d (inl (e, (g, o))) =
      second_rename active candidate w v (os.rename candidate active v) g
        (o candidate d ∙ ap (λ f. f candidate) s) (docs.rename_effect candidate active v)
  removal active candidate w u (v, ok a) s d (inr (e, (p, c))) = absurd cc
  removal active candidate w u (v, err a) s d (inl (e, c)) = absurd cc
  removal active candidate w u (v, err a) s d (inr (e, (p, c))) =
      kept v _ (ap (λ f. f active) (c ∙ s)) (ap (λ f. f candidate) (c ∙ s))

  replace_existing-Outcome :
      (active candidate : String) (e : Error) (present : Result FileInfo) (w u : os.World)
      → docs.content u ≡ docs.content w
      → (candidate == active) ≡ false
      → Outcome active candidate w (replace_existing os m active candidate e present u)
  unfolding replace_existing
  replace_existing-Outcome active candidate e (err e') w u s d =
      kept u _ (ap (λ f. f active) s) (ap (λ f. f candidate) s)
  replace_existing-Outcome active candidate e (ok a) w u s d =
      removal active candidate w u (os.remove active u) s d (docs.remove_effect active u)

  looked_at :
      (active candidate : String) (e : Error) (w : os.World) (x : os.World × Result FileInfo)
      → docs.content x.0 ≡ docs.content w
      → (candidate == active) ≡ false
      → Outcome active candidate w
          (after (caught_result x) (λ present. replace_existing os m active candidate e present))
  unfolding after caught_result
  looked_at active candidate e w (u, r) s d = replace_existing-Outcome active candidate e r w u s d

  first_rename :
      (active candidate : String) (w : os.World) (x : os.World × Result (Unit {0}))
      → (candidate == active) ≡ false
      → Either x
          (docs.content x.0 active ≡ docs.content w candidate)
          (docs.content x.0 ≡ docs.content w)
      → Outcome active candidate w
          (after (attempt_result x) (λ failure. replace_failed os m active candidate failure))
  unfolding after attempt_result replace_failed
  first_rename active candidate w (v, ok a) d (inl (e, c)) = replaced v c
  first_rename active candidate w (v, ok a) d (inr (e, (p, c))) = absurd cc
  first_rename active candidate w (v, err a) d (inl (e, c)) = absurd cc
  first_rename active candidate w (v, err a) d (inr (e, (p, c))) =
      looked_at active candidate a w (os.stat active v) (docs.stat_keeps active v ∙ c) d

  -- If a rename or a removal that fails leaves all contents, and one that succeeds has its effect, the
  -- replacement of a document by another path ends in one of three ways: it succeeds and the new
  -- document is active; it fails and both documents are as they were; or it fails, no document is
  -- active and the candidate still holds the new one.
  pub replace_document-Outcome :
      (active candidate : String) (w : os.World)
      → (candidate == active) ≡ false
      → Outcome active candidate w (replace_document os m active candidate w)
  unfolding replace_document
  replace_document-Outcome active candidate w d =
      guarded (not (os.clean (os.dir candidate) == os.clean (os.dir active)))
    where
      guarded :
          (b : Bool)
          → Outcome active candidate w (
              (if b
                  then throw (Error.text m.not_beside)
                  else (attempt (os.rename candidate active) >>= λ failure.
                      replace_failed os m active candidate failure))
                w)
      guarded true = kept w _ refl refl
      guarded false =
          first_rename active candidate w (os.rename candidate active w) d
            (docs.rename_effect candidate active w)
