-- ===== src/Worker/Storage.antt =====
-- worker/src/storage.ts: the retries of a call to S3, and what is downloaded and uploaded. The pause
-- between attempts is left out.
pub mod Attempts
use escld.Prelude.{
  ℕ, zero, suc, String, Bool, Option, none, some, List, ◌==◌, if◌then◌else◌, Result, ok, err,
}
use Prim.Native.String.{◌++◌ as append_text}

abbrev pub attempts : ℕ
attempts = 3

-- The loop of `withRetry`, with what is left of the attempts.
module _ {W A : Type 0} (aborted : W → Bool) (call : W → Result A × W) where
  unfoldable pub retry_from : ℕ → W → Result A × W
  retry_from zero w = (err, w)
  retry_from (suc left) w =
      let (answer, after) = call w in
      let again = retry_from left after in
      if aborted w then (err, w) else elim answer [ ok a ↦ (ok a, after) | err ↦ again ]

  unfoldable pub with_retry : W → Result A × W
  unfolding retry_from
  with_retry w = retry_from attempts w

-- The calls that the storage makes. `extension` is `path.extname`.
pub record S3 (W Body : Type 0) : Type 0 where
  pub get_object : (key : String) → W → Result (Option Body) × W
  pub write_file : (path : String) → Body → W → Result (Unit {0}) × W
  pub read_dir : String → W → Result (List String) × W
  pub read_file : (path : String) → W → Result Body × W
  pub put_object : (key : String) → Body → (content_type : String) → W → Result (Unit {0}) × W
  pub aborted : W → Bool
  pub extension : String → String

abbrev pub content_type : String → String
content_type extension =
    if extension == ".m3u8"
    then "application/vnd.apple.mpegurl"
    else if extension == ".ts"
    then "video/MP2T"
    else "application/octet-stream"

abbrev pub path_in : (local_dir file : String) → String
path_in local_dir file = append_text local_dir (append_text "/" file)

abbrev pub key_in : (s3_prefix file : String) → String
key_in s3_prefix file = append_text s3_prefix (append_text "/" file)

module _ {W Body : Type 0} (s3 : S3 W Body) where
  abbrev pub store : String → Result (Option Body) × W → Result (Unit {0}) × W
  store path (err, w) = (err, w)
  store path (ok none, w) = (err, w)
  store path (ok (some body), w) = s3.write_file path body w

  unfoldable pub download : (key dest_path : String) → W → Result (Unit {0}) × W
  unfolding with_retry
  download key dest_path = with_retry s3.aborted (λ w. store dest_path (s3.get_object key w))

  abbrev pub send_file : (key name : String) → Result Body × W → Result (Unit {0}) × W
  send_file key name (err, w) = (err, w)
  send_file key name (ok body, w) = s3.put_object key body (content_type (s3.extension name)) w

  -- The upload of one file of a directory, by itself.
  unfoldable pub upload_file : (local_dir s3_prefix file : String) → W → Result (Unit {0}) × W
  unfolding with_retry
  upload_file local_dir s3_prefix file =
      with_retry s3.aborted
        (λ w. send_file (key_in s3_prefix file) file (s3.read_file (path_in local_dir file) w))
