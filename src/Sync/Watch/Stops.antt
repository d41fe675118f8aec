-- ===== src/Sync/Watch/Stops.antt =====
-- The end of the loop of src/watch_loop.go.
use gosync.Base.{
  ℕ, zero, suc, ◌≤◌, ◌<◌, ◌-◌, Bool, true, false, Option, some, Error, Result, ok, err, ℤ, ◌≡◌,
  refl, arith,
}
use gosync.Os.Monad.{Io}
use gosync.Sync.Watch.{
  watch_rounds, run_watch_loop, continued, unless_stopped, effective_interval, from_wait,
  from_second_poll, from_synchronization,
}

module _ (World : Type 0) (is_stopped : World → World × Bool) (wait : ℕ → World → World × Bool)
    (synchronize : Io World (Unit {0})) where
  -- A stop that comes: `left` bounds the synchronizations that are still to come, and no poll says
  -- that there is no stop where it is 0.
  pub record Coming : Type 0 where
    pub left : World → ℕ
    pub polled : (w : World) → (is_stopped w).1 ≡ false → 0 < left w
    pub poll_keeps : (w : World) → left (is_stopped w).0 ≤ left w
    pub wait_keeps : (n : ℕ) (w : World) → left (wait n w).0 ≤ left w
    pub synchronized : (w v : World) → synchronize w ≡ (v, ok tt) → left v ≤ left w - 1

  -- An end of the loop: no error, behind a poll or a wait that has told of the stop, or the error of a
  -- synchronization that has failed.
  pub data Ends : World × Option (Result (Unit {0})) → Type 0 where
    stopped : (u w : World) → is_stopped u ≡ (w, true) → Ends (w, some (ok tt))
    stopped_in_wait : (m : ℕ) (u w : World) → wait m u ≡ (w, true) → Ends (w, some (ok tt))
    failed : (w v : World) (e : Error) → synchronize w ≡ (v, err e) → Ends (v, some (err e))

  unless_stopped_ends :
      (next : World → World × Option (Result (Unit {0}))) (x : World × Bool)
      → ((w : World) → x ≡ (w, true) → Ends (w, some (ok tt)))
      → (x.1 ≡ false → Ends (next x.0))
      → Ends (unless_stopped World is_stopped wait next x)
  unfolding unless_stopped
  unless_stopped_ends next (w, true) stop k = stop w refl
  unless_stopped_ends next (w, false) stop k = k refl

  continued_ends :
      (loop : World → World × Option (Result (Unit {0}))) (w : World)
      (x : World × Result (Unit {0}))
      → synchronize w ≡ x
      → ((v : World) → synchronize w ≡ (v, ok tt) → Ends (loop v))
      → Ends (continued World is_stopped wait loop x)
  unfolding continued
  continued_ends loop w (v, ok u) e k = k v e
  continued_ends loop w (v, err x) e k = failed w v x e

  watch_rounds_end :
      (coming : Coming) (interval n : ℕ) (w : World)
      → coming.left w < n
      → Ends (watch_rounds World is_stopped wait synchronize interval n w)
  unfolding watch_rounds
  watch_rounds_end coming interval zero w h = absurd (omega arith)
  watch_rounds_end coming interval (suc n) w h =
      let rest = watch_rounds World is_stopped wait synchronize interval n in
      let u = (is_stopped w).0 in
      let v = (wait interval u).0 in
      let x = (is_stopped v).0 in
      unless_stopped_ends (from_wait World is_stopped wait synchronize interval rest) (is_stopped w)
        (stopped w)
        (λ p.
          unless_stopped_ends (from_second_poll World is_stopped wait synchronize rest)
            (wait interval u) (stopped_in_wait interval u)
            (λ q.
              unless_stopped_ends (from_synchronization World is_stopped wait synchronize rest)
                (is_stopped v) (stopped v)
                (λ r. continued_ends rest x (synchronize x) refl (λ y e.
                  watch_rounds_end coming interval n y (
                    omega (
                      arith,
                      h,
                      coming.polled w p,
                      coming.poll_keeps w,
                      coming.wait_keeps interval u,
                      coming.poll_keeps v,
                      coming.synchronized x y e,
                    ))))))

  -- A loop that is given a synchronization ends, with fuel for one round more than there are to come
  -- until the stop: without an error right behind a poll or a wait that has told of the stop, or with the
  -- error of a synchronization that has failed.
  pub run_watch_loop_ends :
      (coming : Coming) (interval : ℤ) (n : ℕ) (w : World)
      → coming.left w < n
      → Ends (run_watch_loop World is_stopped wait (some synchronize) interval n w)
  unfolding run_watch_loop
  run_watch_loop_ends coming interval n w h =
      continued_ends
        (watch_rounds World is_stopped wait synchronize (effective_interval interval) n) w
        (synchronize w) refl
        (λ v e.
          watch_rounds_end coming (effective_interval interval) n v
            (omega (arith, h, coming.synchronized w v e)))
