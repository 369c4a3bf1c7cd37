-- ===== src/Worker/Tests.antt =====
-- Runs of the transcode worker.
use escld.Prelude.{ℕ, ◌+◌, String, ◌≡◌, refl, false, none, some, [], ◌∷◌, ok, err}
use escld.Js.Int.{pos}
use escld.Js.Json.{Json, str, obj, end, field, Engine}
use escld.Worker.Jobs.{
  JobDeps, JobLane, mark_ready, mark_failed, is_transcode_job, is_final_attempt, process_job,
  produce, fail_message, process_message,
}
use escld.Worker.Jobs.Outcomes.{read_job, process_message-Changed}
use escld.Worker.Jobs.Outcomes.Changes.{Changed}

abbrev pub job : Json
job =
    obj (
      field "postId" (str "p1") (field "mediaKey" (str "k1") (field "mediaType" (str "VIDEO") end)))

abbrev pub toy_engine : Engine
toy_engine = record {
  json_parse = λ s. some job;
  date_parse = λ s. none;
  stringify = λ row. none;
  to_lower_case = λ s. s;
  is_positive = λ o. false;
  as_text = λ v. none;
}

-- Everything succeeds but the deletion of the message.
abbrev toy_deps : JobDeps ℕ String
toy_deps = record {
  make_work_dir = λ w. (ok "dir", w + 1);
  download = λ key path w. (ok tt, w + 1);
  transcode = λ input output w. (ok tt, w + 1);
  upload_directory = λ dir prefix w. (ok tt, w + 1);
  query = λ update w. (ok tt, w + 1);
  remove = λ dir w. w + 1;
  delete_message = λ message w. (err, w);
  cloudfront_domain = "cdn";
  max_receive_count = 3;
}

abbrev lane : JobLane ℕ
lane = record { world = 0; stats = record { jobs_succeeded = 0; jobs_failed = 0 }; updates = [] }

-- On its last attempt the post is marked as ready and then as failed.
spoiled_updates :
    (process_message toy_deps toy_engine (some (pos 3)) "m" "body" lane).updates
    ≡ mark_ready "p1" "https://cdn/posts/p1/hls/master.m3u8" ∷ mark_failed "p1" ∷ []
unfolding process_message process_job produce fail_message is_transcode_job
spoiled_updates = refl

process_message-Changed_example :
    Changed toy_deps "m"
      (is_final_attempt (some (pos 3)) 3)
      (read_job toy_deps (some job))
      lane
      (process_message toy_deps toy_engine (some (pos 3)) "m" "body" lane)
process_message-Changed_example =
    process_message-Changed toy_deps toy_engine (some (pos 3)) "m" "body" lane
