-- ===== src/Worker/Jobs/Outcomes/Changes.antt =====
-- The changes that a message of worker/src/job-handler.ts may make.
use escld.Prelude.{
  ℕ, ◌+◌, String, ◌≡◌, ◌⊎◌, Bool, true, false, Option, none, some, List, [], ◌∷◌, ◌++◌, Result, ok,
  err,
}
use escld.Worker.Jobs.{
  TranscodeJob, Update, mark_ready, mark_failed, JobLane, JobDeps, master_url, s3_prefix_of,
}
use Prim.Native.String.{◌++◌ as append_text}

module _ {W Message : Type 0} (deps : JobDeps W Message) where
  abbrev pub url_of : TranscodeJob → String
  url_of job = master_url deps.cloudfront_domain job.post_id

  -- A call that the job needs has failed.
  pub data Broken (job : TranscodeJob) : Type 0 where
    no_directory : (w : W) → (deps.make_work_dir w).0 ≡ err → Broken job
    not_downloaded :
        (dir : String) (w : W)
        → (deps.download job.media_key (append_text dir "/source") w).0 ≡ err
        → Broken job
    not_transcoded :
        (dir : String) (w : W)
        → (deps.transcode (append_text dir "/source") (append_text dir "/hls") w).0 ≡ err
        → Broken job
    not_uploaded :
        (dir : String) (w : W)
        → (deps.upload_directory (append_text dir "/hls") (s3_prefix_of job.post_id) w).0 ≡ err
        → Broken job
    not_marked : (w : W) → (deps.query (mark_ready job.post_id (url_of job)) w).0 ≡ err → Broken job

  -- The calls that the job needs have succeeded, one after the other.
  pub record Produced (job : TranscodeJob) : Type 0 where
    pub dir : String
    pub made : W
    pub downloaded : W
    pub transcoded : W
    pub uploaded : W
    pub download :
        deps.download job.media_key (append_text dir "/source") made ≡ (ok tt, downloaded)
    pub transcode :
        deps.transcode (append_text dir "/source") (append_text dir "/hls") downloaded
        ≡ (ok tt, transcoded)
    pub upload :
        deps.upload_directory (append_text dir "/hls") (s3_prefix_of job.post_id) transcoded
        ≡ (ok tt, uploaded)
    pub mark : (deps.query (mark_ready job.post_id (url_of job)) uploaded).0 ≡ ok tt

  module _ (message : Message) (final : Bool) where
    -- The post is not marked as failed after the world `w`: this is not the last attempt, or the
    -- update fails.
    abbrev pub Unmarked : TranscodeJob → (w end : W) → Type 0
    Unmarked job w end =
        ((final ≡ false) × (end ≡ w))
        ⊎ ((final ≡ true) × (deps.query (mark_failed job.post_id) w ≡ (err, end)))

    abbrev pub Marked : TranscodeJob → (w end : W) → Type 0
    Marked job w end = (final ≡ true) × (deps.query (mark_failed job.post_id) w ≡ (ok tt, end))

    -- What a message may change: the updates that are carried out, and by how much the counters rise;
    -- `end` is the world at its end.
    pub data Change (end : W) : Option TranscodeJob → List Update → ℕ → ℕ → Type 0 where
      -- The media is ready and the message deleted.
      published :
          (job : TranscodeJob) (w : W)
          → Produced job
          → deps.delete_message message w ≡ (ok tt, end)
          → Change end (some job) (mark_ready job.post_id (url_of job) ∷ []) 1 0
      -- The text is no job.
      invalid : Change end none [] 0 1
      -- The work failed, and SQS delivers the message again or keeps it.
      left :
          (job : TranscodeJob) (w : W)
          → Broken job
          → Unmarked job w end
          → Change end (some job) [] 0 1
      -- So it did on the last attempt, and the post is marked.
      given_up :
          (job : TranscodeJob) (w : W)
          → Broken job
          → Marked job w end
          → Change end (some job) (mark_failed job.post_id ∷ []) 0 1
      -- The media is ready, but the message could not be deleted.
      undeleted :
          (job : TranscodeJob) (w after : W)
          → Produced job
          → deps.delete_message message w ≡ (err, after)
          → Unmarked job after end
          → Change end (some job) (mark_ready job.post_id (url_of job) ∷ []) 1 1
      -- So it was on the last attempt, and the post is marked as failed after it was marked as
      -- ready.
      spoiled :
          (job : TranscodeJob) (w after : W)
          → Produced job
          → deps.delete_message message w ≡ (err, after)
          → Marked job after end
          → Change end
              (some job)
              (mark_ready job.post_id (url_of job) ∷ mark_failed job.post_id ∷ [])
              1
              1

    pub record Changed (job : Option TranscodeJob) (before after : JobLane W) : Type 0 where
      pub updates : List Update
      pub succeeded : ℕ
      pub failed : ℕ
      pub change : Change after.world job updates succeeded failed
      pub recorded : after.updates ≡ before.updates ++ updates
      pub successes : after.stats.jobs_succeeded ≡ before.stats.jobs_succeeded + succeeded
      pub failures : after.stats.jobs_failed ≡ before.stats.jobs_failed + failed

  -- A job that threw has changed neither; one that returned has published.
  pub data Worked (job : TranscodeJob) (before : JobLane W)
      : Result (Unit {0}) × JobLane W → Type 0 where
    threw :
        (after : JobLane W)
        → Broken job
        → after.updates ≡ before.updates
        → after.stats ≡ before.stats
        → Worked job before (err, after)
    done :
        (after : JobLane W)
        → Produced job
        → after.updates ≡ before.updates ++ mark_ready job.post_id (url_of job) ∷ []
        → after.stats.jobs_succeeded ≡ before.stats.jobs_succeeded + 1
        → after.stats.jobs_failed ≡ before.stats.jobs_failed
        → Worked job before (ok tt, after)
