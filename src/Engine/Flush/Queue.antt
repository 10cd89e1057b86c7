-- ===== src/Engine/Flush/Queue.antt =====
-- reconciler.go: enqueue beside its specification, a bounded queue.
use mamori.Prelude.{
  ℕ, suc, ◌+◌, ◌≤◌, ◌<◌, ◌≡◌, refl, ◌∙◌, true, false, some, List, [], ◌∷◌, ◌++◌, if◌then◌else◌,
  arith, length, length-append, ltb, drop, Bool-cases, inl, inr,
}
use mamori.Engine.Flush.{enqueue_loop}

module _ {A : Type 0} where
  -- The queue behind a full one has lost one change, and every queue ends with the new one.
  abbrev pub push : ℕ → List A → A → List A
  push depth queue ev =
      if ltb (length queue) depth then queue ++ ev ∷ [] else drop 1 queue ++ ev ∷ []

  abbrev pub lost_one : ℕ → List A → ℕ
  lost_one depth queue = if ltb (length queue) depth then 0 else 1

  enqueue_fits :
      (fuel depth : ℕ) (queue : List A) (dropped : ℕ) (ev : A)
      → ltb (length queue) depth ≡ true
      → enqueue_loop (suc fuel) depth queue dropped ev ≡ some (queue ++ ev ∷ [], dropped)
  unfolding enqueue_loop
  enqueue_fits fuel depth [] dropped ev h = rw h refl
  enqueue_fits fuel depth (x ∷ queue) dropped ev h = rw h refl

  enqueue_full :
      (fuel depth : ℕ) (x : A) (queue : List A) (dropped : ℕ) (ev : A)
      → ltb (suc (length queue)) depth ≡ false
      → enqueue_loop (suc fuel) depth (x ∷ queue) dropped ev
        ≡ enqueue_loop fuel depth queue (dropped + 1) ev
  unfolding enqueue_loop
  enqueue_full fuel depth x queue dropped ev h = rw h refl

  -- A queue of depth one or more that holds no more than its depth: the loop of enqueue ends within
  -- its fuel, appends the change, and loses at most one change, the oldest, exactly when the queue
  -- is full.
  pub enqueue_loop-push :
      (depth : ℕ) (queue : List A) (dropped : ℕ) (ev : A)
      → 0 < depth
      → length queue ≤ depth
      → enqueue_loop (length queue + 1) depth queue dropped ev
        ≡ some (push depth queue ev, dropped + lost_one depth queue)
  enqueue_loop-push depth [] dropped ev d h =
      let fits : ltb 0 depth ≡ true = ground arith in
      let none_lost : dropped ≡ dropped + 0 = omega arith in
      enqueue_fits 0 depth [] dropped ev fits ∙ rw (fits, ← none_lost) refl
  enqueue_loop-push depth (x ∷ queue) dropped ev d h =
      let fuel : suc (length queue) + 1 ≡ suc (suc (length queue)) = omega arith in
      let none_lost : dropped ≡ dropped + 0 = omega arith in
      elim (Bool-cases (ltb (suc (length queue)) depth)) [
        | inl fits ↦ rw fuel (
            enqueue_fits (suc (length queue)) depth (x ∷ queue) dropped ev fits
            ∙ rw (fits, ← none_lost) refl)
        | inr full ↦
            let room : ltb (length queue) depth ≡ true = ground arith in
            rw fuel (
              enqueue_full (suc (length queue)) depth x queue dropped ev full
              ∙ enqueue_fits (length queue) depth queue (dropped + 1) ev room
              ∙ rw full refl)
      ]

  pub length-push :
      (depth : ℕ) (queue : List A) (ev : A)
      → 0 < depth
      → length queue ≤ depth
      → length (push depth queue ev) ≤ depth
  length-push depth [] ev d h = ground (arith)
  length-push depth (x ∷ queue) ev d h =
      ground (arith, length-append (x ∷ queue) (ev ∷ []), length-append queue (ev ∷ []))
