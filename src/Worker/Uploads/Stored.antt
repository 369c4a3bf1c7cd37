-- ===== src/Worker/Uploads/Stored.antt =====
-- What the bucket holds when `uploadDirectory` of worker/src/storage.ts returns.
use escld.Prelude.{
  ℕ, zero, suc, String, ◌≡◌, refl, ap, subst, inl, inr, Bool, true, false, List, [], ◌∷◌, map,
  arith, if◌then◌else◌, Bool-cases, any, All, All-map, Result, ok, err,
}
use escld.Worker.Storage.{S3}
use escld.Worker.Uploads.{
  Task, has_given_up, is_uploaded, Tasks, turn_at, turns_of, alone, one_by_one, side_by_side,
  start_all, upload_all, upload_directory,
}
use escld.Worker.Uploads.Turns.{
  IsStore, HoldsFile, IsBacked, IsBacked-after, IsBacked-moves, IsBacked-uploaded, turn-others,
  turn-HoldsFile, turn-IsBacked, turns_of-HoldsFile, turns_of-IsBacked,
}

module _ {W Body : Type 0} (s3 : S3 W Body) (Holds : (key type : String) → Body → W → Type 0)
    (store : IsStore s3 Holds) (local_dir s3_prefix : String) where
  turn_at-HoldsFile :
      (i : ℕ) (tasks : Tasks s3 local_dir s3_prefix) (w : W) (other : String)
      → All (IsBacked s3 Holds store local_dir s3_prefix w) tasks
      → HoldsFile s3 Holds local_dir s3_prefix w other
      → HoldsFile s3 Holds local_dir s3_prefix (turn_at s3 local_dir s3_prefix i tasks w).1 other
  unfolding turn_at
  turn_at-HoldsFile i [] w other own h = h
  turn_at-HoldsFile zero ((file, task) ∷ tasks) w other (own, rest) h =
      turn-HoldsFile s3 Holds store local_dir s3_prefix file other task w own h
  turn_at-HoldsFile (suc i) ((file, task) ∷ tasks) w other (own, rest) h =
      turn_at-HoldsFile i tasks w other rest h

  turn_at-IsBacked :
      (i : ℕ) (tasks : Tasks s3 local_dir s3_prefix) (w : W)
      → All (IsBacked s3 Holds store local_dir s3_prefix w) tasks
      → All
          (IsBacked s3 Holds store local_dir s3_prefix (turn_at s3 local_dir s3_prefix i tasks w).1)
          (turn_at s3 local_dir s3_prefix i tasks w).0
  unfolding turn_at
  turn_at-IsBacked i [] w h = tt
  turn_at-IsBacked zero ((file, task) ∷ tasks) w (h, hs) = (
    turn-IsBacked s3 Holds store local_dir s3_prefix file task w h,
    All-map (λ t. turn-others s3 Holds store local_dir s3_prefix file task w t h) tasks hs,
  )
  turn_at-IsBacked (suc i) ((file, task) ∷ tasks) w (h, hs) = (
    IsBacked-moves s3 Holds store local_dir s3_prefix w _ (file, task)
        (λ other. turn_at-HoldsFile i tasks w other hs) h,
    turn_at-IsBacked i tasks w hs,
  )

  abbrev files_of : Tasks s3 local_dir s3_prefix → List String
  files_of tasks = map (λ t. t.0) tasks

  files_of-turn_at :
      (i : ℕ) (tasks : Tasks s3 local_dir s3_prefix) (w : W)
      → files_of (turn_at s3 local_dir s3_prefix i tasks w).0 ≡ files_of tasks
  unfolding turn_at
  files_of-turn_at i [] w = refl
  files_of-turn_at zero ((file, task) ∷ tasks) w = refl
  files_of-turn_at (suc i) ((file, task) ∷ tasks) w =
      ap (λ fs. file ∷ fs) (files_of-turn_at i tasks w)

  one_by_one-HoldsFile :
      (tasks : Tasks s3 local_dir s3_prefix) (w : W) (other : String)
      → All (IsBacked s3 Holds store local_dir s3_prefix w) tasks
      → HoldsFile s3 Holds local_dir s3_prefix w other
      → HoldsFile s3 Holds local_dir s3_prefix (one_by_one s3 local_dir s3_prefix tasks w).1 other
  unfolding one_by_one alone
  one_by_one-HoldsFile [] w other own h = h
  one_by_one-HoldsFile ((file, task) ∷ tasks) w other (own, rest) h =
      let end = turns_of s3 local_dir s3_prefix 6 file task w in
      let kept = turns_of-HoldsFile s3 Holds store local_dir s3_prefix 6 file other task w own h in
      let others =
        All-map (λ t. IsBacked-after s3 Holds store local_dir s3_prefix 6 file task w t own) tasks
          rest in
      elim (Bool-cases (is_uploaded end.0)) [
        | inl done ↦ rw done (one_by_one-HoldsFile tasks end.1 other others kept)
        | inr failed ↦ rw failed kept
      ]

  one_by_one-stores :
      (tasks : Tasks s3 local_dir s3_prefix) (w : W)
      → All (IsBacked s3 Holds store local_dir s3_prefix w) tasks
      → (one_by_one s3 local_dir s3_prefix tasks w).0 ≡ ok tt
      → All
          (HoldsFile s3 Holds local_dir s3_prefix (one_by_one s3 local_dir s3_prefix tasks w).1)
          (files_of tasks)
  unfolding one_by_one alone
  one_by_one-stores [] w h = λ e. tt
  one_by_one-stores ((file, task) ∷ tasks) w (h, hs) =
      by_test (is_uploaded end.0) refl (one_by_one-stores tasks end.1 others)
    where
      end : Task Body × W
      end = turns_of s3 local_dir s3_prefix 6 file task w

      others : All (IsBacked s3 Holds store local_dir s3_prefix end.1) tasks
      others =
          All-map (λ t. IsBacked-after s3 Holds store local_dir s3_prefix 6 file task w t h) tasks
            hs

      by_test :
          (b : Bool)
          → is_uploaded end.0 ≡ b
          → ((one_by_one s3 local_dir s3_prefix tasks end.1).0 ≡ ok tt
              → All
                  (HoldsFile s3 Holds local_dir s3_prefix
                    (one_by_one s3 local_dir s3_prefix tasks end.1).1)
                  (files_of tasks))
          → (if b then one_by_one s3 local_dir s3_prefix tasks end.1 else (err, end.1)).0 ≡ ok tt
          → All
              (HoldsFile s3 Holds local_dir s3_prefix
                (if b then one_by_one s3 local_dir s3_prefix tasks end.1 else (err, end.1)).1)
              (file ∷ files_of tasks)
      by_test true done stored e = (
        one_by_one-HoldsFile tasks end.1 file others (
            IsBacked-uploaded s3 Holds store local_dir s3_prefix file end.0 end.1 done
              (turns_of-IsBacked s3 Holds store local_dir s3_prefix 6 file task w h)),
        stored e,
      )
      by_test false failed stored e = absurd (ground arith)

  side_by_side-stores :
      (turns : List ℕ) (tasks : Tasks s3 local_dir s3_prefix) (w : W)
      → All (IsBacked s3 Holds store local_dir s3_prefix w) tasks
      → (side_by_side s3 local_dir s3_prefix turns tasks w).0 ≡ ok tt
      → All
          (HoldsFile s3 Holds local_dir s3_prefix
            (side_by_side s3 local_dir s3_prefix turns tasks w).1)
          (files_of tasks)
  unfolding side_by_side
  side_by_side-stores [] tasks w h = elim (Bool-cases (any (λ t. has_given_up t.1) tasks)) [
    | inl over ↦ rw over (λ e. absurd (ground arith))
    | inr on ↦ rw on (one_by_one-stores tasks w h)
  ]
  side_by_side-stores (i ∷ turns) tasks w h =
      elim (Bool-cases (any (λ t. has_given_up t.1) tasks)) [
        | inl over ↦ rw over (λ e. absurd (ground arith))
        | inr on ↦ rw on (λ e.
            let next = turn_at s3 local_dir s3_prefix i tasks w in
            subst
              (All (
                HoldsFile s3 Holds local_dir s3_prefix
                  (side_by_side s3 local_dir s3_prefix turns next.0 next.1).1))
              (files_of-turn_at i tasks w)
              (side_by_side-stores turns next.0 next.1 (turn_at-IsBacked i tasks w h) e))
      ]

  start_all-IsBacked :
      (files : List String) (w : W)
      → All (IsBacked s3 Holds store local_dir s3_prefix w) (start_all s3 local_dir s3_prefix files)
  start_all-IsBacked [] w = tt
  start_all-IsBacked (file ∷ files) w = (tt, start_all-IsBacked files w)

  files_of-start_all :
      (files : List String) → files_of (start_all s3 local_dir s3_prefix files) ≡ files
  files_of-start_all [] = refl
  files_of-start_all (file ∷ files) = ap (λ fs. file ∷ fs) (files_of-start_all files)

  -- Where it returns, the directory was listed, and every file of the list is in the bucket.
  pub upload_directory-stores :
      (turns : List ℕ) (w : W)
      → (upload_directory s3 local_dir s3_prefix turns w).0 ≡ ok tt
      → (files : List String) × ((s3.read_dir local_dir w).0 ≡ ok files)
        × All
            (HoldsFile s3 Holds local_dir s3_prefix
              (upload_directory s3 local_dir s3_prefix turns w).1)
            files
  unfolding upload_directory
  upload_directory-stores turns w = by_listing (s3.read_dir local_dir w)
    where
      by_listing :
          (q : Result (List String) × W)
          → (upload_all s3 local_dir s3_prefix turns q).0 ≡ ok tt
          → (files : List String) × (q.0 ≡ ok files)
            × All
                (HoldsFile s3 Holds local_dir s3_prefix
                  (upload_all s3 local_dir s3_prefix turns q).1)
                files
      by_listing (err, w') e = absurd (ground arith)
      by_listing (ok files, w') e = (
        files,
        refl,
        subst
            (All (
              HoldsFile s3 Holds local_dir s3_prefix
                (side_by_side s3 local_dir s3_prefix turns (start_all s3 local_dir s3_prefix files)
                  w').1))
            (files_of-start_all files)
            (side_by_side-stores turns (start_all s3 local_dir s3_prefix files) w'
              (start_all-IsBacked files w') e),
      )
