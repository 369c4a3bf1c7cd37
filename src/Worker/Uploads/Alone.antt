-- ===== src/Worker/Uploads/Alone.antt =====
-- An upload that has all turns to itself does what `withRetry` does with its call, in
-- worker/src/storage.ts; so it ends within them.
use escld.Prelude.{
  ℕ, zero, suc, ◌-◌, ◌*◌, ◌≤◌, String, ◌≡◌, refl, ◌⊎◌, inl, inr, arith, Bool-cases, Result, ok, err,
}
use escld.Worker.Storage.{
  S3, retry_from, with_retry, send_file, content_type, key_in, path_in, upload_file,
}
use escld.Worker.Uploads.{
  Task, waiting, uploaded, gave_up, retry, after_read, after_put, turn, turns_of, alone, attempts,
}

-- Both end in the same world, the upload as done where the call succeeded.
abbrev pub SameEnd : {W Body : Type 0} → Task Body × W → Result (Unit {0}) × W → Type 0
SameEnd (task, w) (answer, w') =
    (w ≡ w') × (((task ≡ uploaded) × (answer ≡ ok tt)) ⊎ ((task ≡ gave_up) × (answer ≡ err)))

module _ {W Body : Type 0} (s3 : S3 W Body) (local_dir s3_prefix file : String) where
  abbrev attempt : W → Result (Unit {0}) × W
  attempt w = send_file s3 (key_in s3_prefix file) file (s3.read_file (path_in local_dir file) w)

  turns_of-uploaded :
      (fuel : ℕ) (w : W) → turns_of s3 local_dir s3_prefix fuel file uploaded w ≡ (uploaded, w)
  unfolding turns_of
  turns_of-uploaded zero w = refl
  turns_of-uploaded (suc fuel) w = turns_of-uploaded fuel w

  turns_of-gave_up :
      (fuel : ℕ) (w : W) → turns_of s3 local_dir s3_prefix fuel file gave_up w ≡ (gave_up, w)
  unfolding turns_of
  turns_of-gave_up zero w = refl
  turns_of-gave_up (suc fuel) w = turns_of-gave_up fuel w

  turns_of-retry :
      (left fuel : ℕ) (w : W)
      → 2 * left ≤ fuel
      → SameEnd
          (turns_of s3 local_dir s3_prefix fuel file (retry left) w)
          (retry_from s3.aborted attempt left w)
  unfolding retry_from turns_of turn
  turns_of-retry zero fuel w h = rw (turns_of-gave_up fuel w) (refl, inr (refl, refl))
  turns_of-retry (suc left) zero w h = absurd (omega (arith, h))
  turns_of-retry (suc left) (suc zero) w h = absurd (omega (arith, h))
  turns_of-retry (suc left) (suc (suc fuel)) w h = elim (Bool-cases (s3.aborted w)) [
    | inl gone ↦
        rw (gone, turns_of, turn) (rw (turns_of-gave_up (suc fuel) w) (refl, inr (refl, refl)))
    | inr runs ↦
        rw (runs, turns_of, turn)
          (by_read (λ f w' k. turns_of-retry left f w' k) (s3.read_file (path_in local_dir file) w))
  ]
    where
      on : Result (Unit {0}) × W → Result (Unit {0}) × W
      on q = elim q.0 [ ok u ↦ (ok u, q.1) | err ↦ retry_from s3.aborted attempt left q.1 ]

      by_put :
          ((f : ℕ) (w' : W)
            → 2 * left ≤ f
            → SameEnd
                (turns_of s3 local_dir s3_prefix f file (retry left) w')
                (retry_from s3.aborted attempt left w'))
          → (q : Result (Unit {0}) × W)
          → SameEnd
              (turns_of s3 local_dir s3_prefix fuel file
                (after_put s3 local_dir s3_prefix left q).0
                (after_put s3 local_dir s3_prefix left q).1)
              (on q)
      by_put ih (ok u, w') = rw (turns_of-uploaded fuel w') (refl, inl (refl, refl))
      by_put ih (err, w') = ih fuel w' (omega (arith, h))

      by_read :
          ((f : ℕ) (w' : W)
            → 2 * left ≤ f
            → SameEnd
                (turns_of s3 local_dir s3_prefix f file (retry left) w')
                (retry_from s3.aborted attempt left w'))
          → (q : Result Body × W)
          → SameEnd
              (turns_of s3 local_dir s3_prefix
                (suc fuel)
                file
                (after_read s3 local_dir s3_prefix left q).0
                (after_read s3 local_dir s3_prefix left q).1)
              (on (send_file s3 (key_in s3_prefix file) file q))
      by_read ih (err, w') = ih (suc fuel) w' (omega (arith, h))
      by_read ih (ok body, w') =
          by_put ih
            (s3.put_object (key_in s3_prefix file) body (content_type (s3.extension file)) w')

  pub alone-upload_file :
      (w : W)
      → SameEnd
          (alone s3 local_dir s3_prefix file (waiting (attempts - 1)) w)
          (upload_file s3 local_dir s3_prefix file w)
  unfolding alone upload_file with_retry
  alone-upload_file w = turns_of-retry 3 6 w (omega arith)
