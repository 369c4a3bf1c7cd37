-- ===== src/Worker/Jobs/Outcomes/Work.antt =====
-- How the work on a job of worker/src/job-handler.ts ends.
use escld.Prelude.{String, ◌≡◌, refl, sym, ap, ◌∙◌, ◌⊎◌, inl, inr, arith, Result, ok, err}
use escld.Worker.Jobs.{
  TranscodeJob, mark_ready, JobDeps, JobLane, s3_prefix_of, then_do, updated, count_success,
  publish, produce, cleaned, in_work_dir, process_job,
}
use escld.Worker.Jobs.Outcomes.Changes.{
  url_of, Broken, no_directory, not_downloaded, not_transcoded, not_uploaded, not_marked, Produced,
  Worked, threw, done,
}
use Prim.Native.String.{◌++◌ as append_text}

module _ {W Message : Type 0} (deps : JobDeps W Message) where
  -- How far the work on a job came.
  produce-cases :
      (job : TranscodeJob) (dir : String) (w : W)
      → ((produce deps job dir w).0 ≡ err) × Broken deps job
        ⊎ ((downloaded : W) × (transcoded : W) × (uploaded : W) × (deps.download job.media_key
                (append_text dir "/source")
                w
              ≡ (ok tt, downloaded))
            × (deps.transcode (append_text dir "/source") (append_text dir "/hls") downloaded
                ≡ (ok tt, transcoded))
            × (deps.upload_directory (append_text dir "/hls") (s3_prefix_of job.post_id) transcoded
                ≡ (ok tt, uploaded))
            × (produce deps job dir w ≡ (ok tt, uploaded)))
  unfolding produce
  produce-cases job dir w =
      by_download (deps.download job.media_key (append_text dir "/source") w) refl
    where
      Cases : Result (Unit {0}) × W → Type 0
      Cases q =
          ((q.0 ≡ err) × Broken deps job)
          ⊎ ((downloaded : W) × (transcoded : W) × (uploaded : W) × (deps.download job.media_key
                  (append_text dir "/source") w
                ≡ (ok tt, downloaded))
              × (deps.transcode (append_text dir "/source") (append_text dir "/hls") downloaded
                  ≡ (ok tt, transcoded))
              × (deps.upload_directory (append_text dir "/hls") (s3_prefix_of job.post_id)
                    transcoded
                  ≡ (ok tt, uploaded))
              × (q ≡ (ok tt, uploaded)))

      by_upload :
          (w₁ w₂ : W) (q : Result (Unit {0}) × W)
          → deps.download job.media_key (append_text dir "/source") w ≡ (ok tt, w₁)
          → deps.transcode (append_text dir "/source") (append_text dir "/hls") w₁ ≡ (ok tt, w₂)
          → deps.upload_directory (append_text dir "/hls") (s3_prefix_of job.post_id) w₂ ≡ q
          → Cases q
      by_upload w₁ w₂ (err, w₃) d t e = inl (refl, not_uploaded dir w₂ (ap (λ p. p.0) e))
      by_upload w₁ w₂ (ok tt, w₃) d t e = inr (w₁, w₂, w₃, d, t, e, refl)

      by_transcode :
          (w₁ : W) (q : Result (Unit {0}) × W)
          → deps.download job.media_key (append_text dir "/source") w ≡ (ok tt, w₁)
          → deps.transcode (append_text dir "/source") (append_text dir "/hls") w₁ ≡ q
          → Cases (
              then_do deps q
                (deps.upload_directory (append_text dir "/hls") (s3_prefix_of job.post_id)))
      by_transcode w₁ (err, w₂) d e = inl (refl, not_transcoded dir w₁ (ap (λ p. p.0) e))
      by_transcode w₁ (ok tt, w₂) d e = by_upload w₁ w₂ _ d e refl

      by_download :
          (q : Result (Unit {0}) × W)
          → deps.download job.media_key (append_text dir "/source") w ≡ q
          → Cases (
              then_do deps
                (then_do deps q
                  (deps.transcode (append_text dir "/source") (append_text dir "/hls")))
                (deps.upload_directory (append_text dir "/hls") (s3_prefix_of job.post_id)))
      by_download (err, w₁) e = inl (refl, not_downloaded dir w (ap (λ p. p.0) e))
      by_download (ok tt, w₁) e = by_transcode w₁ _ e refl

  pub process_job-Worked :
      (job : TranscodeJob) (lane : JobLane W) → Worked deps job lane (process_job deps job lane)
  unfolding process_job
  process_job-Worked job lane = by_dir (deps.make_work_dir lane.world) refl
    where
      by_query :
          (dir : String) (w : W) (q : Result (Unit {0}) × W)
          → deps.query (mark_ready job.post_id (url_of deps job)) w ≡ q
          → (q.0 ≡ ok tt → Produced deps job)
          → Worked deps job lane (
              cleaned deps dir (
                count_success deps
                  (updated deps (mark_ready job.post_id (url_of deps job)) q lane)))
      by_query dir w (err, w') e produced = threw _ (not_marked w (ap (λ p. p.0) e)) refl refl
      by_query dir w (ok u, w') e produced = done _ (produced refl) refl refl refl

      by_work :
          (dir : String) (w : W) (q : Result (Unit {0}) × W)
          → produce deps job dir w ≡ q
          → Worked deps job lane (cleaned deps dir (publish deps job q lane))
      by_work dir w (err, w') e = elim (produce-cases job dir w) [
        | inl (failed, broken) ↦ threw _ broken refl refl
        | inr (d, t, u, p, q, r, same) ↦ absurd (ground (arith, ap (λ x. x.0) (sym e ∙ same)))
      ]
      by_work dir w (ok u, w') e = elim (produce-cases job dir w) [
        | inl (failed, broken) ↦ absurd (ground (arith, sym failed ∙ ap (λ x. x.0) e))
        | inr (d, t, u', p, q, r, same) ↦
            by_query dir w' (deps.query (mark_ready job.post_id (url_of deps job)) w') refl (λ h.
              record {
                dir = dir;
                made = w;
                downloaded = d;
                transcoded = t;
                uploaded = w';
                download = p;
                transcode = q;
                upload = r ∙ ap (λ x. (ok tt, x.1)) (sym same ∙ e);
                mark = h;
              })
      ]

      by_dir :
          (d : Result String × W)
          → deps.make_work_dir lane.world ≡ d
          → Worked deps job lane (in_work_dir deps job d lane)
      by_dir (err, w) e = threw _ (no_directory lane.world (ap (λ p. p.0) e)) refl refl
      by_dir (ok dir, w) e = by_work dir w (produce deps job dir w) refl
