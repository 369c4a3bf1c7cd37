-- ===== src/Worker/Service/Tests.antt =====
-- A run of the worker whose bucket refuses the first put.
use escld.Prelude.{
  ℕ, zero, suc, String, ◌≡◌, refl, subst, ◌⊎◌, inl, inr, true, false, Option, none, some, List, [],
  ◌∷◌, map, arith, ◌==◌, eq_iff, eq_refl, if◌then◌else◌, Bool-cases, any, Result, ok, err,
}
use escld.Js.Int.{pos}
use escld.Js.Text.{decimal}
use escld.Worker.Jobs.{
  JobLane, is_transcode_job, process_job, produce, fail_message, process_message,
}
use escld.Worker.Ffmpeg.{transcode_to_hls, probe_height, video_args, audio_args}
use escld.Worker.Storage.{download, with_retry}
use escld.Worker.Uploads.{upload_directory, turn_at, turn, side_by_side, one_by_one, alone}
use escld.Worker.Service.{Services, job_handler_deps}
use escld.Worker.Service.Playlists.{Documented}
use escld.Worker.Service.Published.{Backed, process_message-Backed}
use escld.Worker.Tests.{toy_engine}

-- The bucket, the latest put first, and the number of puts that it refused.
abbrev Bucket : Type 0
Bucket = List (String × String × ℕ) × ℕ

abbrev object_at : String → List (String × String × ℕ) → Option (String × ℕ)
object_at key [] = none
object_at key ((k, type, body) ∷ b) = if k == key then some (type, body) else object_at key b

abbrev Holds : (key type : String) → ℕ → Bucket → Type 0
Holds key type body w = object_at key w.0 ≡ some (type, body)

abbrev put : (key : String) → ℕ → (type : String) → Bucket → Result (Unit {0}) × Bucket
put key body type (b, zero) = (err, (b, 1))
put key body type (b, suc n) = (ok tt, ((key, type, body) ∷ b, suc n))

abbrev made : List String
made = "master.m3u8" ∷ "0.m3u8" ∷ "0_000.ts" ∷ []

abbrev services : Services Bucket String ℕ
services = record {
  s3 = record {
    get_object = λ key w. (ok (some 7), w);
    write_file = λ path body w. (ok tt, w);
    read_dir = λ dir w. (ok made, w);
    read_file = λ path w. (ok 7, w);
    put_object = put;
    aborted = λ w. false;
    extension = λ file. if file == "0_000.ts" then ".ts" else ".m3u8";
  };
  machine = record {
    make_dir = λ dir w. (ok tt, w);
    run = λ program args w. (ok "720", w);
    parse_int = λ s. some (pos 720);
  };
  make_work_dir = λ w. (ok "dir", w);
  query = λ update w. (ok tt, w);
  remove = λ dir w. w;
  delete_message = λ message w. (ok tt, w);
  cloudfront_domain = "cdn";
  max_receive_count = 3;
}

put-stores :
    (key type : String) (body : ℕ) (w : Bucket)
    → (put key body type w).0 ≡ ok tt
    → Holds key type body (put key body type w).1
put-stores key type body (b, zero) e = absurd (ground arith)
put-stores key type body (b, suc n) e = rw (eq_refl key) refl

put-keeps :
    (key type : String) (body : ℕ) (key' type' : String) (body' : ℕ) (w : Bucket)
    → Holds key type body w
    → Holds key type body (put key' body' type' w).1
      ⊎ ((key' ≡ key) × Holds key type' body' (put key' body' type' w).1)
put-keeps key type body key' type' body' (b, zero) h = inl h
put-keeps key type body key' type' body' (b, suc n) h = elim (Bool-cases (key' == key)) [
  | inl again ↦ inr ((eq_iff key' key).0 again, rw again refl)
  | inr other ↦ inl (rw other h)
]

services-Documented : Documented services Holds
services-Documented = record {
  store = record {
    puts = λ key type body w. put-stores key type body w;
    put_keeps = λ key type body key' type' body' w. put-keeps key type body key' type' body' w;
    read_keeps = λ key type body path w h. h;
  };
  master = λ dir args w out files hls ran e.
      subst (λ fs. any (λ file. file == "master.m3u8") fs ≡ true) (listed files e) refl;
  query_keeps = λ key type body update w h. h;
  remove_keeps = λ key type body dir w h. h;
  delete_keeps = λ key type body message w h. h;
}
  where
    listed : (files : List String) → ok made ≡ ok files → made ≡ files
    listed files e = ground (arith, e)

abbrev lane : JobLane Bucket
lane = record {
  world = ([], 0);
  stats = record { jobs_succeeded = 0; jobs_failed = 0 };
  updates = [];
}

abbrev run : JobLane Bucket
run =
    process_message (job_handler_deps services (2 ∷ 2 ∷ 0 ∷ 0 ∷ 0 ∷ [])) toy_engine (some (pos 1))
      "m" "body" lane

-- The segment is put first, refused, and put again after the playlists.
run_puts :
    map {B = String} (λ o. o.0) run.world.0
    ≡ "posts/p1/hls/0_000.ts" ∷ "posts/p1/hls/0.m3u8" ∷ "posts/p1/hls/master.m3u8" ∷ []
unfolding process_message process_job produce fail_message is_transcode_job download with_retry
    transcode_to_hls probe_height video_args audio_args upload_directory side_by_side one_by_one
    alone turn_at turn decimal
run_puts = refl

process_message-Backed_example :
    Backed services Holds services-Documented (2 ∷ 2 ∷ 0 ∷ 0 ∷ 0 ∷ []) [] run
process_message-Backed_example =
    process_message-Backed services Holds services-Documented (2 ∷ 2 ∷ 0 ∷ 0 ∷ 0 ∷ []) toy_engine
      (some (pos 1)) "m" "body" lane
