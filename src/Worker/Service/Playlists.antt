-- ===== src/Worker/Service/Playlists.antt =====
-- The playlist that a transcode of worker/src/ffmpeg.ts leaves in its directory.
use escld.Prelude.{
  zero, suc, String, ◌≡◌, refl, ap, ◌∙◌, subst, true, Option, none, some, List, [], ◌∷◌, ◌++◌,
  append_assoc, arith, ◌==◌, any, Result, ok, err,
}
use escld.Js.Int.{ℤ, pos, negsuc}
use escld.Worker.Jobs.{Update}
use escld.Worker.Ffmpeg.{
  hls_args, video_args, audio_args, outcome, transcode_source, in_output_dir, probe_height,
  transcode_to_hls, renditions_for, filter_graph, video_maps, sound_maps, video_streams, audio_maps,
  audio_streams,
}
use escld.Worker.Uploads.Turns.{IsStore}
use escld.Worker.Service.{Services}

-- The command writes an HLS playlist into the directory.
abbrev pub WritesHls : String → List String → Type 0
WritesHls dir args =
    (front : List String) × (stream_map : String) × (front ++ hls_args stream_map dir ≡ args)

-- What ffmpeg, S3 and the other services document.
pub record Documented {W Message Body : Type 0} (services : Services W Message Body)
    (Holds : (key type : String) → Body → W → Type 0) : Type 0 where
  pub store : IsStore services.s3 Holds
  -- ffmpeg writes the playlist that `-master_pl_name` names.
  pub master :
      (dir : String) (args : List String) (w : W) (out : String) (files : List String)
      → WritesHls dir args
      → (services.machine.run "ffmpeg" args w).0 ≡ ok out
      → (services.s3.read_dir dir (services.machine.run "ffmpeg" args w).1).0 ≡ ok files
      → any (λ file. file == "master.m3u8") files ≡ true
  -- The bucket is left alone.
  pub query_keeps :
      (key type : String) (body : Body) (update : Update) (w : W)
      → Holds key type body w
      → Holds key type body (services.query update w).1
  pub remove_keeps :
      (key type : String) (body : Body) (dir : String) (w : W)
      → Holds key type body w
      → Holds key type body (services.remove dir w)
  pub delete_keeps :
      (key type : String) (body : Body) (message : Message) (w : W)
      → Holds key type body w
      → Holds key type body (services.delete_message message w).1

WritesHls-append :
    (dir : String) (xs args : List String) → WritesHls dir args → WritesHls dir (xs ++ args)
WritesHls-append dir xs args (front, stream_map, e) =
    (xs ++ front, stream_map, append_assoc xs front (hls_args stream_map dir) ∙ ap (λ l. xs ++ l) e)

video_args-WritesHls :
    (input_path output_dir : String) (h : ℤ)
    → WritesHls output_dir (video_args input_path output_dir h)
unfolding video_args
video_args-WritesHls input_path output_dir h =
    let renditions = renditions_for h in
    let hls = hls_args (video_streams renditions) output_dir in
    WritesHls-append output_dir
      ("-y" ∷ "-i" ∷ input_path ∷ "-filter_complex" ∷ filter_graph renditions ∷ [])
      (video_maps renditions ++ (sound_maps renditions ++ hls))
      (WritesHls-append output_dir (video_maps renditions) (sound_maps renditions ++ hls) (
        WritesHls-append output_dir (sound_maps renditions) hls
          ([], video_streams renditions, refl)))

audio_args-WritesHls :
    (input_path output_dir : String) → WritesHls output_dir (audio_args input_path output_dir)
unfolding audio_args
audio_args-WritesHls input_path output_dir =
    WritesHls-append output_dir ("-y" ∷ "-i" ∷ input_path ∷ [])
      (audio_maps ++ hls_args audio_streams output_dir)
      (WritesHls-append output_dir audio_maps (hls_args audio_streams output_dir)
        ([], audio_streams, refl))

module _ {W Message Body : Type 0} (services : Services W Message Body)
    (Holds : (key type : String) → Body → W → Type 0) (documented : Documented services Holds) where
  abbrev pub Lists : (dir : String) → W → Type 0
  Lists dir w =
      (files : List String)
      → (services.s3.read_dir dir w).0 ≡ ok files
      → any (λ file. file == "master.m3u8") files ≡ true

  -- A transcode that succeeds leaves the master playlist in its directory.
  pub transcode_to_hls-Lists :
      (input_path output_dir : String) (w w₀ : W)
      → transcode_to_hls services.machine input_path output_dir w ≡ (ok tt, w₀)
      → Lists output_dir w₀
  unfolding transcode_to_hls
  transcode_to_hls-Lists input_path output_dir w w₀ =
      by_dir (services.machine.make_dir output_dir w)
    where
      by_run :
          (args : List String) (w' : W)
          → WritesHls output_dir args
          → outcome services.machine (services.machine.run "ffmpeg" args w') ≡ (ok tt, w₀)
          → Lists output_dir w₀
      by_run args w' hls e = by_answer (services.machine.run "ffmpeg" args w') refl e
        where
          by_answer :
              (q : Result String × W)
              → services.machine.run "ffmpeg" args w' ≡ q
              → outcome services.machine q ≡ (ok tt, w₀)
              → Lists output_dir w₀
          by_answer (err, w'') same e' = absurd (ground arith)
          by_answer (ok out, w'') same e' =
              subst (Lists output_dir) (ap (λ q. q.1) same ∙ ap (λ q. q.1) e')
                (λ files. documented.master output_dir args w' out files hls (ap (λ q. q.0) same))

      by_height :
          (p : Option ℤ × W)
          → transcode_source services.machine input_path output_dir p ≡ (ok tt, w₀)
          → Lists output_dir w₀
      by_height (none, w') =
          by_run (audio_args input_path output_dir) w' (audio_args-WritesHls input_path output_dir)
      by_height (some (pos zero), w') =
          by_run (audio_args input_path output_dir) w' (audio_args-WritesHls input_path output_dir)
      by_height (some (pos (suc n)), w') =
          by_run (video_args input_path output_dir (pos (suc n))) w'
            (video_args-WritesHls input_path output_dir (pos (suc n)))
      by_height (some (negsuc n), w') =
          by_run (video_args input_path output_dir (negsuc n)) w'
            (video_args-WritesHls input_path output_dir (negsuc n))

      by_dir :
          (d : Result (Unit {0}) × W)
          → in_output_dir services.machine input_path output_dir d ≡ (ok tt, w₀)
          → Lists output_dir w₀
      by_dir (err, w') e = absurd (ground arith)
      by_dir (ok u, w') e = by_height (probe_height services.machine input_path w') e
