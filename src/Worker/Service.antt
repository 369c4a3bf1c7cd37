-- ===== src/Worker/Service.antt =====
-- What worker/src/index.ts hands to the job handler: the storage of storage.ts, and the commands that
-- ffmpeg.ts runs.
pub mod Playlists
pub mod Served
pub mod Published
pub mod Tests
use escld.Prelude.{ℕ, String, List, Result}
use escld.Worker.Jobs.{Update, JobDeps}
use escld.Worker.Ffmpeg.{Machine, transcode_to_hls}
use escld.Worker.Storage.{S3, download}
use escld.Worker.Uploads.{upload_directory}

-- The services that the worker calls.
pub record Services (W Message Body : Type 0) : Type 0 where
  pub s3 : S3 W Body
  pub machine : Machine W
  pub make_work_dir : W → Result String × W
  pub query : Update → W → Result (Unit {0}) × W
  pub remove : String → W → W
  pub delete_message : Message → W → Result (Unit {0}) × W
  pub cloudfront_domain : String
  pub max_receive_count : ℕ

-- `turns` is the order in which the uploads of the job get on.
abbrev pub job_handler_deps :
    {W Message Body : Type 0} → Services W Message Body → (turns : List ℕ) → JobDeps W Message
job_handler_deps services turns = record {
  make_work_dir = services.make_work_dir;
  download = download services.s3;
  transcode = transcode_to_hls services.machine;
  upload_directory = λ local_dir s3_prefix. upload_directory services.s3 local_dir s3_prefix turns;
  query = services.query;
  remove = services.remove;
  delete_message = services.delete_message;
  cloudfront_domain = services.cloudfront_domain;
  max_receive_count = services.max_receive_count;
}
