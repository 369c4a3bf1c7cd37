-- ===== src/Worker/Service/Published.antt =====
-- What the worker has put into the bucket when it marks a post as ready: processMessage of
-- worker/src/job-handler.ts over ffmpeg.ts and storage.ts.
use escld.Prelude.{
  ℕ, ◌+◌, String, ◌≡◌, refl, sym, ap, ◌∙◌, inl, inr, Bool, true, false, Option, none, some, List,
  [], ◌∷◌, ◌++◌, append-nil, append_assoc, Bool-cases, All, All-append, All-map, Result, ok, err,
}
use escld.Js.Int.{ℤ}
use escld.Js.Json.{Json, Engine}
use escld.Worker.Jobs.{
  is_transcode_job, TranscodeJob, job_of, Update, mark_ready, mark_failed, JobDeps, JobLane,
  master_url, is_final_attempt, updated, count_success, publish, produce, cleaned, in_work_dir,
  process_job, fail_message, after_delete, after_job, handle_parsed, process_message,
}
use escld.Worker.Service.{Services, job_handler_deps}
use escld.Worker.Service.Playlists.{Documented}
use escld.Worker.Service.Served.{Served, Keeps, Served-Keeps, produce-Served}

module _ {W Message Body : Type 0} (services : Services W Message Body)
    (Holds : (key type : String) → Body → W → Type 0) (documented : Documented services Holds) where
  module _ (turns : List ℕ) where
    abbrev deps : JobDeps W Message
    deps = job_handler_deps services turns

    abbrev pub IsBacked : W → Update → Type 0
    IsBacked w (mark_ready post_id url) = Served services Holds post_id url w
    IsBacked w (mark_failed post_id) = Unit

    -- The updates behind the first ones are backed by the bucket.
    abbrev pub Backed : List Update → JobLane W → Type 0
    Backed before lane =
        (updates : List Update) × (lane.updates ≡ before ++ updates)
        × All (IsBacked lane.world) updates

    IsBacked-Keeps :
        (w w' : W)
        → Keeps services Holds w w'
        → (update : Update) → IsBacked w update
        → IsBacked w' update
    IsBacked-Keeps w w' keeps (mark_ready post_id url) h =
        Served-Keeps services Holds post_id url w w' keeps h
    IsBacked-Keeps w w' keeps (mark_failed post_id) h = tt

    Backed-Keeps :
        (before : List Update) (lane after : JobLane W)
        → after.updates ≡ lane.updates
        → Keeps services Holds lane.world after.world
        → Backed before lane
        → Backed before after
    Backed-Keeps before lane after same keeps (updates, e, h) =
        (updates, same ∙ e, All-map (IsBacked-Keeps lane.world after.world keeps) updates h)

    Backed-none :
        (lane : JobLane W) (before : List Update) → lane.updates ≡ before → Backed before lane
    Backed-none lane before e = ([], e ∙ sym (append-nil before), tt)

    process_job-Backed :
        (job : TranscodeJob) (lane : JobLane W) → Backed lane.updates (process_job deps job lane).1
    unfolding process_job
    process_job-Backed job lane = by_dir (services.make_work_dir lane.world)
      where
        url : String
        url = master_url services.cloudfront_domain job.post_id

        by_query :
            (dir : String) (q : Result (Unit {0}) × W)
            → Served services Holds job.post_id url q.1
            → Backed lane.updates
                (cleaned deps dir
                  (count_success deps (updated deps (mark_ready job.post_id url) q lane))).1
        by_query dir (err, w) served =
            Backed-none (record lane { world = services.remove dir w }) lane.updates refl
        by_query dir (ok u, w) served = (
          mark_ready job.post_id url ∷ [],
          refl,
          (
            Served-Keeps services Holds job.post_id url w (services.remove dir w)
                (λ key type body. documented.remove_keeps key type body dir w) served,
            tt,
          ),
        )

        by_work :
            (dir : String) (q : Result (Unit {0}) × W)
            → (q.0 ≡ ok tt → Served services Holds job.post_id url q.1)
            → Backed lane.updates (cleaned deps dir (publish deps job q lane)).1
        by_work dir (err, w) served =
            Backed-none (record lane { world = services.remove dir w }) lane.updates refl
        by_work dir (ok u, w) served =
            by_query dir (services.query (mark_ready job.post_id url) w) (
              Served-Keeps services Holds job.post_id url w _
                (λ key type body.
                  documented.query_keeps key type body (mark_ready job.post_id url) w)
                (served refl))

        by_dir : (d : Result String × W) → Backed lane.updates (in_work_dir deps job d lane).1
        by_dir (err, w) = Backed-none (record lane { world = w }) lane.updates refl
        by_dir (ok dir, w) =
            by_work dir (produce deps job dir w)
              (produce-Served services Holds documented turns job dir w)

    fail_message-Backed :
        (before : List Update) (final : Bool) (job : Option TranscodeJob) (lane : JobLane W)
        → Backed before lane
        → Backed before (fail_message deps final job lane)
    unfolding fail_message
    fail_message-Backed before false job lane h = h
    fail_message-Backed before true none lane h = h
    fail_message-Backed before true (some job) lane h =
        by_query (services.query (mark_failed job.post_id) lane.world) (λ key type body.
          documented.query_keeps key type body (mark_failed job.post_id) lane.world)
      where
        counted : JobLane W
        counted = record lane {
          stats = record lane.stats { jobs_failed = lane.stats.jobs_failed + 1 };
        }

        by_query :
            (q : Result (Unit {0}) × W)
            → Keeps services Holds lane.world q.1
            → Backed before (updated deps (mark_failed job.post_id) q counted).1
        by_query (err, w) keeps =
            Backed-Keeps before lane (record counted { world = w }) refl keeps h
        by_query (ok u, w) keeps =
            let (updates, e, backed) =
              Backed-Keeps before lane (record lane { world = w }) refl keeps h in
            (
              updates ++ mark_failed job.post_id ∷ [],
              ap (λ us. us ++ mark_failed job.post_id ∷ []) e
                  ∙ append_assoc before updates (mark_failed job.post_id ∷ []),
              All-append (IsBacked w) updates (mark_failed job.post_id ∷ []) backed (tt, tt),
            )

    after_job-Backed :
        (before : List Update) (final : Bool) (message : Message) (job : TranscodeJob)
        (q : Result (Unit {0}) × JobLane W)
        → Backed before q.1
        → Backed before (after_job deps final message job q)
    after_job-Backed before final message job (err, lane) h =
        fail_message-Backed before final (some job) lane h
    after_job-Backed before final message job (ok u, lane) h =
        by_delete (services.delete_message message lane.world)
          (λ key type body. documented.delete_keeps key type body message lane.world)
      where
        by_delete :
            (d : Result (Unit {0}) × W)
            → Keeps services Holds lane.world d.1
            → Backed before (after_delete deps final job d lane)
        by_delete (ok u, w) keeps =
            Backed-Keeps before lane (record lane { world = w }) refl keeps h
        by_delete (err, w) keeps =
            fail_message-Backed before final (some job) (record lane { world = w })
              (Backed-Keeps before lane (record lane { world = w }) refl keeps h)

    -- Where S3, ffmpeg and the other services do what they document: whatever a message makes the
    -- worker write into the database, a post that is marked as ready gets the address of its master
    -- playlist, and under that address the bucket then holds what was read from the playlist that the
    -- transcode left in its directory; and so it holds every file of that directory, each with the
    -- content type of its extension.
    pub process_message-Backed :
        (engine : Engine) (receive_count : Option ℤ) (message : Message) (body : String)
        (lane : JobLane W)
        → Backed lane.updates (process_message deps engine receive_count message body lane)
    unfolding process_message
    process_message-Backed engine receive_count message body lane =
        by_parsed (engine.json_parse body)
      where
        final : Bool
        final = is_final_attempt receive_count services.max_receive_count

        by_parsed :
            (parsed : Option Json)
            → Backed lane.updates (handle_parsed deps final message parsed lane)
        by_parsed none =
            fail_message-Backed lane.updates final none lane (Backed-none lane lane.updates refl)
        by_parsed (some v) = elim (Bool-cases (is_transcode_job v)) [
          | inl valid ↦ rw valid (
              after_job-Backed lane.updates final message (job_of v)
                (process_job deps (job_of v) lane) (process_job-Backed (job_of v) lane))
          | inr invalid ↦ rw invalid (
              fail_message-Backed lane.updates final none lane (Backed-none lane lane.updates refl))
        ]
