-- ===== src/Worker/Service/Served.antt =====
-- What is in the bucket after the work of a job: the download, the transcode and the upload of
-- worker/src/job-handler.ts.
use escld.Prelude.{
  ℕ, String, ◌≡◌, refl, sym, ap, subst, inl, inr, true, List, [], ◌∷◌, arith, ◌==◌, eq_iff,
  Bool-cases, any, All, All-map, Result, ok, err,
}
use Prim.Native.String.{◌++◌ as append_text}
use escld.Worker.Jobs.{TranscodeJob, JobDeps, then_do, s3_prefix_of, master_url, produce}
use escld.Worker.Ffmpeg.{transcode_to_hls}
use escld.Worker.Storage.{key_in}
use escld.Worker.Uploads.Turns.{HoldsFile}
use escld.Worker.Uploads.Stored.{upload_directory-stores}
use escld.Worker.Service.{Services, job_handler_deps}
use escld.Worker.Service.Playlists.{Documented, transcode_to_hls-Lists}

module _ {W Message Body : Type 0} (services : Services W Message Body)
    (Holds : (key type : String) → Body → W → Type 0) where
  then_do-ok :
      (q : Result (Unit {0}) × W) (next : W → Result (Unit {0}) × W)
      → (then_do (job_handler_deps services []) q next).0 ≡ ok tt
      → (w : W) × (q ≡ (ok tt, w)) × ((next w).0 ≡ ok tt)
  then_do-ok (err, w) next e = absurd (ground arith)
  then_do-ok (ok u, w) next e = (w, refl, e)

  -- The address leads to the master playlist of the post, which is in the bucket, and so is every
  -- file that a transcode left in its directory.
  pub record Served (post_id url : String) (w : W) : Type 0 where
    pub address :
        url
        ≡ append_text "https://" (
            append_text services.cloudfront_domain
              (append_text "/" (key_in (s3_prefix_of post_id) "master.m3u8")))
    pub input_path : String
    pub output_dir : String
    pub master : HoldsFile services.s3 Holds output_dir (s3_prefix_of post_id) w "master.m3u8"
    pub before : W
    pub transcoded : W
    pub transcode :
        transcode_to_hls services.machine input_path output_dir before ≡ (ok tt, transcoded)
    pub files : List String
    pub listed : (services.s3.read_dir output_dir transcoded).0 ≡ ok files
    pub complete : All (HoldsFile services.s3 Holds output_dir (s3_prefix_of post_id) w) files

  abbrev pub Keeps : W → W → Type 0
  Keeps w w' = (key type : String) (body : Body) → Holds key type body w → Holds key type body w'

  HoldsFile-Keeps :
      (dir prefix file : String) (w w' : W)
      → Keeps w w'
      → HoldsFile services.s3 Holds dir prefix w file
      → HoldsFile services.s3 Holds dir prefix w' file
  HoldsFile-Keeps dir prefix file w w' keeps (body, type, suits, read, held) =
      (body, type, suits, read, keeps _ type body held)

  pub Served-Keeps :
      (post_id url : String) (w w' : W) → Keeps w w' → Served post_id url w → Served post_id url w'
  Served-Keeps post_id url w w' keeps s = record {
    address = s.address;
    master = HoldsFile-Keeps s.output_dir _ "master.m3u8" w w' keeps s.master;
    input_path = s.input_path;
    output_dir = s.output_dir;
    before = s.before;
    transcoded = s.transcoded;
    transcode = s.transcode;
    files = s.files;
    listed = s.listed;
    complete = All-map (λ file. HoldsFile-Keeps s.output_dir _ file w w' keeps) s.files s.complete;
  }

  any-HoldsFile :
      (dir prefix file : String) (w : W) (files : List String)
      → any (λ f. f == file) files ≡ true
      → All (HoldsFile services.s3 Holds dir prefix w) files
      → HoldsFile services.s3 Holds dir prefix w file
  any-HoldsFile dir prefix file w [] e h = absurd (ground arith)
  any-HoldsFile dir prefix file w (f ∷ fs) e (h, hs) = elim (Bool-cases (f == file)) [
    | inl same ↦ subst (HoldsFile services.s3 Holds dir prefix w) ((eq_iff f file).0 same) h
    | inr other ↦ any-HoldsFile dir prefix file w fs (ground (arith, e, other)) hs
  ]

module _ {W Message Body : Type 0} (services : Services W Message Body)
    (Holds : (key type : String) → Body → W → Type 0) (documented : Documented services Holds) where
  module _ (turns : List ℕ) where
    abbrev deps : JobDeps W Message
    deps = job_handler_deps services turns

    pub produce-Served :
        (job : TranscodeJob) (dir : String) (w : W)
        → (produce deps job dir w).0 ≡ ok tt
        → Served services Holds job.post_id
            (master_url services.cloudfront_domain job.post_id)
            (produce deps job dir w).1
    unfolding produce
    produce-Served job dir w e =
        let input = append_text dir "/source" in
        let output = append_text dir "/hls" in
        let prefix = s3_prefix_of job.post_id in
        let first =
          then_do deps (deps.download job.media_key input w) (deps.transcode input output) in
        let (w₀, transcoded, uploaded) =
          then_do-ok services Holds first (deps.upload_directory output prefix) e in
        let (w₁, downloaded, ran) =
          then_do-ok services Holds (deps.download job.media_key input w)
            (deps.transcode input output) (ap (λ q. q.0) transcoded) in
        let same : deps.transcode input output w₁ ≡ (ok tt, w₀) =
          subst (λ q. then_do deps q (deps.transcode input output) ≡ (ok tt, w₀)) downloaded
            transcoded in
        let (files, listed, stored) =
          upload_directory-stores services.s3 Holds documented.store output prefix turns w₀
            uploaded in
        subst
          (λ q.
            Served services Holds job.post_id (master_url services.cloudfront_domain job.post_id)
              (then_do deps q (deps.upload_directory output prefix)).1)
          (sym transcoded)
          (record {
            address = refl;
            master =
                any-HoldsFile services Holds output prefix "master.m3u8" _ files
                  (transcode_to_hls-Lists services Holds documented input output w₁ w₀ same files
                    listed)
                  stored;
            input_path = input;
            output_dir = output;
            before = w₁;
            transcoded = w₀;
            transcode = same;
            files = files;
            listed = listed;
            complete = stored;
          })
