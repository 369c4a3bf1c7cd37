-- ===== src/Worker/Jobs/Outcomes.antt =====
-- What a message of worker/src/job-handler.ts changes in the database and in the counters.
pub mod Changes
pub mod Work
use escld.Prelude.{
  ◌+◌, String, ◌≡◌, refl, sym, ap, ◌∙◌, ◌⊎◌, inl, inr, Bool, true, false, Option, none, some, [],
  ◌∷◌, ◌++◌, append-nil, append_assoc, arith, if◌then◌else◌, Bool-cases, Result, ok, err,
}
use escld.Js.Int.{ℤ}
use escld.Js.Json.{Json, Engine}
use escld.Worker.Jobs.{
  is_transcode_job, TranscodeJob, job_of, mark_ready, mark_failed, JobDeps, JobLane,
  is_final_attempt, updated, process_job, fail_message, after_delete, after_job, handle_parsed,
  process_message,
}
use escld.Worker.Jobs.Outcomes.Work.{process_job-Worked}
use escld.Worker.Jobs.Outcomes.Changes.{
  url_of, Unmarked, Marked, Changed, Worked, published, invalid, left, given_up, undeleted, spoiled,
  threw, done,
}
use Prim.Native.String.{◌++◌ as append_text}

module _ {W Message : Type 0} (deps : JobDeps W Message) where
  -- The `catch` counts a failure, and marks the post on the last attempt, if the update succeeds.
  fail_message-cases :
      (message : Message) (final : Bool) (job : TranscodeJob) (lane : JobLane W)
      → let out = fail_message deps final (some job) lane in
        (out.stats.jobs_succeeded ≡ lane.stats.jobs_succeeded)
        × (out.stats.jobs_failed ≡ lane.stats.jobs_failed + 1)
        × (((out.updates ≡ lane.updates) × Unmarked deps message final job lane.world out.world)
            ⊎ ((out.updates ≡ lane.updates ++ mark_failed job.post_id ∷ [])
                × Marked deps message final job lane.world out.world))
  unfolding fail_message
  fail_message-cases message false job lane = (refl, refl, inl (refl, inl (refl, refl)))
  fail_message-cases message true job lane =
      by_query (deps.query (mark_failed job.post_id) lane.world) refl
    where
      by_query :
          (q : Result (Unit {0}) × W)
          → deps.query (mark_failed job.post_id) lane.world ≡ q
          → let out =
              (updated deps (mark_failed job.post_id) q (record lane {
                stats = record lane.stats { jobs_failed = lane.stats.jobs_failed + 1 };
              })).1 in
            (out.stats.jobs_succeeded ≡ lane.stats.jobs_succeeded)
            × (out.stats.jobs_failed ≡ lane.stats.jobs_failed + 1)
            × (((out.updates ≡ lane.updates) × Unmarked deps message true job lane.world out.world)
                ⊎ ((out.updates ≡ lane.updates ++ mark_failed job.post_id ∷ [])
                    × Marked deps message true job lane.world out.world))
      by_query (err, w) e = (refl, refl, inl (refl, inr (refl, e)))
      by_query (ok tt, w) e = (refl, refl, inr (refl, (refl, e)))

  after_job-Changed :
      (message : Message) (final : Bool) (job : TranscodeJob) (before : JobLane W)
      (q : Result (Unit {0}) × JobLane W)
      → Worked deps job before q
      → Changed deps message final (some job) before (after_job deps final message job q)
  after_job-Changed message final job before q (threw after broken same_updates same_stats) =
      let (s, f, us) = fail_message-cases message final job after in
      elim us [
        | inl (none_more, unmarked) ↦ record {
          updates = [];
          succeeded = 0;
          failed = 1;
          change = left job after.world broken unmarked;
          recorded = none_more ∙ same_updates ∙ sym (append-nil before.updates);
          successes = s ∙ ap (λ x. x.jobs_succeeded) same_stats ∙ omega arith;
          failures = f ∙ ap (λ x. x.jobs_failed + 1) same_stats;
        }
        | inr (more, marked) ↦ record {
          updates = mark_failed job.post_id ∷ [];
          succeeded = 0;
          failed = 1;
          change = given_up job after.world broken marked;
          recorded = more ∙ ap (λ us. us ++ mark_failed job.post_id ∷ []) same_updates;
          successes = s ∙ ap (λ x. x.jobs_succeeded) same_stats ∙ omega arith;
          failures = f ∙ ap (λ x. x.jobs_failed + 1) same_stats;
        }
      ]
  after_job-Changed message final job before q (done after produced ready success failures) =
      by_delete (deps.delete_message message after.world) refl
    where
      by_delete :
          (d : Result (Unit {0}) × W)
          → deps.delete_message message after.world ≡ d
          → Changed deps message final (some job) before (after_delete deps final job d after)
      by_delete (ok tt, w) e = record {
        updates = mark_ready job.post_id (url_of deps job) ∷ [];
        succeeded = 1;
        failed = 0;
        change = published job after.world produced e;
        recorded = ready;
        successes = success;
        failures = failures ∙ omega arith;
      }
      by_delete (err, w) e =
          let (s, f, us) = fail_message-cases message final job (record after { world = w }) in
          elim us [
            | inl (none_more, unmarked) ↦ record {
              updates = mark_ready job.post_id (url_of deps job) ∷ [];
              succeeded = 1;
              failed = 1;
              change = undeleted job after.world w produced e unmarked;
              recorded = none_more ∙ ready;
              successes = s ∙ success;
              failures = f ∙ ap (λ n. n + 1) failures;
            }
            | inr (more, marked) ↦ record {
              updates = mark_ready job.post_id (url_of deps job) ∷ mark_failed job.post_id ∷ [];
              succeeded = 1;
              failed = 1;
              change = spoiled job after.world w produced e marked;
              recorded =
                  more
                  ∙ ap (λ us. us ++ mark_failed job.post_id ∷ []) ready
                  ∙ append_assoc before.updates (mark_ready job.post_id (url_of deps job) ∷ [])
                      (mark_failed job.post_id ∷ []);
              successes = s ∙ success;
              failures = f ∙ ap (λ n. n + 1) failures;
            }
          ]

  fail_message-none :
      (message : Message) (final : Bool) (lane : JobLane W)
      → Changed deps message final none lane (fail_message deps final none lane)
  unfolding fail_message
  fail_message-none message false lane = record {
    updates = [];
    succeeded = 0;
    failed = 1;
    change = invalid;
    recorded = sym (append-nil lane.updates);
    successes = omega arith;
    failures = refl;
  }
  fail_message-none message true lane = record {
    updates = [];
    succeeded = 0;
    failed = 1;
    change = invalid;
    recorded = sym (append-nil lane.updates);
    successes = omega arith;
    failures = refl;
  }

  -- The job of a message, where its text is one.
  abbrev pub read_job : Option Json → Option TranscodeJob
  read_job none = none
  read_job (some v) = if is_transcode_job v then some (job_of v) else none

  -- A message makes one of six changes. Where every call that its job needs succeeds, it publishes
  -- the job; if the message then cannot be deleted, this counts as a failure too, and on the last
  -- attempt the post is marked as failed after it was marked as ready, unless that update fails.
  -- Where such a call fails, the job is left undone, and on the last attempt its post is marked as
  -- failed, unless that update fails. Where the text is no job, nothing is updated.
  pub process_message-Changed :
      (engine : Engine) (receive_count : Option ℤ) (message : Message) (body : String)
      (lane : JobLane W)
      → Changed deps message
          (is_final_attempt receive_count deps.max_receive_count)
          (read_job (engine.json_parse body))
          lane
          (process_message deps engine receive_count message body lane)
  unfolding process_message
  process_message-Changed engine receive_count message body lane =
      by_parsed (engine.json_parse body)
    where
      by_parsed :
          (parsed : Option Json)
          → Changed deps message
              (is_final_attempt receive_count deps.max_receive_count)
              (read_job parsed)
              lane
              (handle_parsed deps
                (is_final_attempt receive_count deps.max_receive_count)
                message
                parsed
                lane)
      by_parsed none =
          fail_message-none message (is_final_attempt receive_count deps.max_receive_count) lane
      by_parsed (some v) = elim (Bool-cases (is_transcode_job v)) [
        | inl valid ↦ rw valid (
            after_job-Changed message (is_final_attempt receive_count deps.max_receive_count)
              (job_of v) lane (process_job deps (job_of v) lane)
              (process_job-Worked deps (job_of v) lane))
        | inr no_job ↦
            rw no_job (
              fail_message-none message (is_final_attempt receive_count deps.max_receive_count)
                lane)
      ]
