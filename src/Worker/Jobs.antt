-- ===== src/Worker/Jobs.antt =====
-- worker/src/types.ts, job-handler.ts and db.ts: the handling of one message. Logs, metrics and the
-- abort signal, which only makes the calls below fail, are left out.
pub mod Outcomes
use escld.Prelude.{
  ℕ, ◌+◌, String, Bool, false, not, ◌&&◌, ◌||◌, Option, none, some, List, [], ◌∷◌, ◌++◌, leb,
  if◌then◌else◌, Result, ok, err,
}
use Prim.Native.String.{◌++◌ as append_text}
use escld.Js.Int.{ℤ, pos, negsuc}
use escld.Js.Json.{Json, Engine, prop, is_object, is_string, is_text, as_string}

unfoldable pub is_transcode_job : Json → Bool
is_transcode_job value =
    is_object (some value)
    && is_string (prop "postId" value)
    && is_string (prop "mediaKey" value)
    && (is_text "VIDEO" (prop "mediaType" value) || is_text "AUDIO" (prop "mediaType" value))

pub record TranscodeJob : Type 0 where
  pub post_id : String
  pub media_key : String
  pub media_type : String

abbrev pub job_of : Json → TranscodeJob
job_of v = record {
  post_id = as_string (prop "postId" v);
  media_key = as_string (prop "mediaKey" v);
  media_type = as_string (prop "mediaType" v);
}

-- The updates of db.ts: each sets the media status of the post, whatever it was.
pub data Update : Type 0 where
  mark_ready : (post_id media_url : String) → Update
  mark_failed : (post_id : String) → Update

pub record JobDeps (W Message : Type 0) : Type 0 where
  pub make_work_dir : W → Result String × W
  pub download : (key dest_path : String) → W → Result (Unit {0}) × W
  pub transcode : (input_path output_dir : String) → W → Result (Unit {0}) × W
  pub upload_directory : (local_dir s3_prefix : String) → W → Result (Unit {0}) × W
  pub query : Update → W → Result (Unit {0}) × W
  pub remove : String → W → W
  pub delete_message : Message → W → Result (Unit {0}) × W
  pub cloudfront_domain : String
  pub max_receive_count : ℕ

pub record JobStats : Type 0 where
  pub jobs_succeeded : ℕ
  pub jobs_failed : ℕ

-- `updates` are those that the database has carried out.
pub record JobLane (W : Type 0) : Type 0 where
  pub world : W
  pub stats : JobStats
  pub updates : List Update

abbrev pub s3_prefix_of : String → String
s3_prefix_of post_id = append_text "posts/" (append_text post_id "/hls")

abbrev pub master_url : String → String → String
master_url domain post_id =
    append_text "https://"
      (append_text domain (append_text "/" (append_text (s3_prefix_of post_id) "/master.m3u8")))

-- `receiveCount >= maxReceiveCount`; a count that is no number compares as false.
abbrev pub is_final_attempt : Option ℤ → ℕ → Bool
is_final_attempt none limit = false
is_final_attempt (some (pos n)) limit = leb limit n
is_final_attempt (some (negsuc n)) limit = false

module _ {W Message : Type 0} (deps : JobDeps W Message) where
  abbrev pub then_do : Result (Unit {0}) × W → (W → Result (Unit {0}) × W) → Result (Unit {0}) × W
  then_do (err, w) next = (err, w)
  then_do (ok u, w) next = next w

  -- The database carries out an update, or the query throws.
  abbrev pub updated : Update → Result (Unit {0}) × W → JobLane W → Result (Unit {0}) × JobLane W
  updated update (err, w) lane = (err, record lane { world = w })
  updated update (ok u, w) lane =
      (ok tt, record lane { world = w; updates = lane.updates ++ update ∷ [] })

  abbrev pub count_success : Result (Unit {0}) × JobLane W → Result (Unit {0}) × JobLane W
  count_success (err, lane) = (err, lane)
  count_success (ok u, lane) = (
    ok tt,
    record lane { stats = record lane.stats { jobs_succeeded = lane.stats.jobs_succeeded + 1 } },
  )

  abbrev pub publish :
      TranscodeJob → Result (Unit {0}) × W → JobLane W → Result (Unit {0}) × JobLane W
  publish job (err, w) lane = (err, record lane { world = w })
  publish job (ok u, w) lane =
      let update = mark_ready job.post_id (master_url deps.cloudfront_domain job.post_id) in
      count_success (updated update (deps.query update w) lane)

  -- The work inside the `try`, up to the upload.
  unfoldable pub produce : TranscodeJob → String → W → Result (Unit {0}) × W
  produce job work_dir w =
      let input_path = append_text work_dir "/source" in
      let output_dir = append_text work_dir "/hls" in
      then_do
        (then_do (deps.download job.media_key input_path w) (deps.transcode input_path output_dir))
        (deps.upload_directory output_dir (s3_prefix_of job.post_id))

  abbrev pub cleaned : String → Result (Unit {0}) × JobLane W → Result (Unit {0}) × JobLane W
  cleaned work_dir (result, lane) =
      (result, record lane { world = deps.remove work_dir lane.world })

  abbrev pub in_work_dir :
      TranscodeJob → Result String × W → JobLane W → Result (Unit {0}) × JobLane W
  in_work_dir job (err, w) lane = (err, record lane { world = w })
  in_work_dir job (ok work_dir, w) lane =
      cleaned work_dir (publish job (produce job work_dir w) lane)

  unfoldable pub process_job : TranscodeJob → JobLane W → Result (Unit {0}) × JobLane W
  unfolding produce
  process_job job lane = in_work_dir job (deps.make_work_dir lane.world) lane

  -- The `catch` of `processMessage`: the job is known where the message was valid.
  unfoldable pub fail_message : Bool → Option TranscodeJob → JobLane W → JobLane W
  fail_message final job lane =
      let counted = record lane {
        stats = record lane.stats { jobs_failed = lane.stats.jobs_failed + 1 };
      } in
      if final
      then elim job [
        | none ↦ counted
        | some j ↦
            (updated (mark_failed j.post_id) (deps.query (mark_failed j.post_id) lane.world)
              counted).1
      ]
      else counted

  abbrev pub after_delete : Bool → TranscodeJob → Result (Unit {0}) × W → JobLane W → JobLane W
  after_delete final job (ok u, w) lane = record lane { world = w }
  after_delete final job (err, w) lane = fail_message final (some job) (record lane { world = w })

  abbrev pub after_job : Bool → Message → TranscodeJob → Result (Unit {0}) × JobLane W → JobLane W
  after_job final message job (err, lane) = fail_message final (some job) lane
  after_job final message job (ok u, lane) =
      after_delete final job (deps.delete_message message lane.world) lane

  abbrev pub handle_parsed : Bool → Message → Option Json → JobLane W → JobLane W
  handle_parsed final message none lane = fail_message final none lane
  handle_parsed final message (some v) lane =
      if not (is_transcode_job v)
      then fail_message final none lane
      else after_job final message (job_of v) (process_job (job_of v) lane)

  -- `receive_count` is what `Number.parseInt` makes of the attribute.
  unfoldable pub process_message :
      Engine → Option ℤ → Message → (body : String) → JobLane W → JobLane W
  unfolding process_job fail_message is_transcode_job
  process_message engine receive_count message body lane =
      handle_parsed (is_final_attempt receive_count deps.max_receive_count) message
        (engine.json_parse body) lane
