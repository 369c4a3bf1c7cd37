-- ===== src/Worker/Ffmpeg.antt =====
-- worker/src/ffmpeg.ts: the renditions and the command lines of a transcode. Time limits and the
-- abort signal only make a command fail, and are left out.
pub mod Renditions
use escld.Prelude.{
  ℕ, zero, suc, String, Bool, false, Option, none, some, List, [], ◌∷◌, ◌++◌, leb, if◌then◌else◌,
  length, Result, ok, err,
}
use Prim.Native.String.{◌++◌ as append_text}
use escld.Js.Int.{ℤ, pos, negsuc}
use escld.Js.Text.{decimal}

pub record VideoRendition : Type 0 where
  pub height : ℕ
  pub bitrate : String

abbrev pub video_ladder : List VideoRendition
video_ladder =
    record { height = 1080; bitrate = "5000k" }
    ∷ record { height = 720; bitrate = "2800k" }
    ∷ record { height = 480; bitrate = "1400k" }
    ∷ []

abbrev pub audio_ladder : List String
audio_ladder = "128k" ∷ "64k" ∷ []

-- `height <= sourceHeight`. The height is what `parseInt` reads from the output of ffprobe.
abbrev pub fits : ℤ → VideoRendition → Bool
fits (pos n) r = leb r.height n
fits (negsuc n) r = false

abbrev pub filter {ℓ} : {A : Type ℓ} → (A → Bool) → List A → List A
filter p [] = []
filter p (x ∷ xs) = if p x then x ∷ filter p xs else filter p xs

abbrev pub last_of : List VideoRendition → List VideoRendition
last_of [] = []
last_of (r ∷ []) = r ∷ []
last_of (r ∷ rs) = last_of rs

abbrev pub or_smallest : List VideoRendition → List VideoRendition
or_smallest [] = last_of video_ladder
or_smallest (r ∷ rs) = r ∷ rs

unfoldable pub renditions_for : ℤ → List VideoRendition
renditions_for source_height = or_smallest (filter (fits source_height) video_ladder)

-- The elements with their index, each turned into a list, one list after the other.
abbrev pub each {ℓ κ} : {A : Type ℓ} {B : Type κ} → (ℕ → A → List B) → ℕ → List A → List B
each f i [] = []
each f i (x ∷ xs) = f i x ++ each f (suc i) xs

abbrev pub joined : String → List String → String
joined between [] = ""
joined between (s ∷ []) = s
joined between (s ∷ ss) = append_text s (append_text between (joined between ss))

-- A template: its parts, one after the other.
abbrev pub text : List String → String
text = joined ""

abbrev pub filter_graph : List VideoRendition → String
filter_graph renditions =
    let labels = each (λ i r. text ("[v" ∷ decimal i ∷ "]" ∷ []) ∷ []) 0 renditions in
    let scales =
      each
        (λ i r.
          text ("[v" ∷ decimal i ∷ "]scale=-2:" ∷ decimal r.height ∷ "[v" ∷ decimal i ∷ "out]" ∷ [])
          ∷ [])
        0 renditions in
    text (
      "[0:v]split="
      ∷ decimal (length renditions)
      ∷ joined "" labels
      ∷ "; "
      ∷ joined "; " scales
      ∷ [])

abbrev pub hls_args : String → String → List String
hls_args stream_map output_dir =
    "-f"
    ∷ "hls"
    ∷ "-hls_time"
    ∷ "6"
    ∷ "-hls_playlist_type"
    ∷ "vod"
    ∷ "-master_pl_name"
    ∷ "master.m3u8"
    ∷ "-var_stream_map"
    ∷ stream_map
    ∷ "-hls_segment_filename"
    ∷ append_text output_dir "/%v_%03d.ts"
    ∷ append_text output_dir "/%v.m3u8"
    ∷ []

abbrev pub video_maps : List VideoRendition → List String
video_maps =
    each
      (λ i r.
        "-map"
        ∷ text ("[v" ∷ decimal i ∷ "out]" ∷ [])
        ∷ append_text "-c:v:" (decimal i)
        ∷ "libx264"
        ∷ append_text "-b:v:" (decimal i)
        ∷ r.bitrate
        ∷ [])
      0

abbrev pub sound_maps : List VideoRendition → List String
sound_maps =
    each
      (λ i r.
        "-map"
        ∷ "a:0?"
        ∷ append_text "-c:a:" (decimal i)
        ∷ "aac"
        ∷ append_text "-b:a:" (decimal i)
        ∷ "128k"
        ∷ [])
      0

abbrev pub video_streams : List VideoRendition → String
video_streams renditions =
    joined " " (each (λ i r. text ("v:" ∷ decimal i ∷ ",a:" ∷ decimal i ∷ []) ∷ []) 0 renditions)

unfoldable pub video_args : (input_path output_dir : String) → ℤ → List String
unfolding renditions_for
video_args input_path output_dir source_height =
    let renditions = renditions_for source_height in
    "-y"
    ∷ "-i"
    ∷ input_path
    ∷ "-filter_complex"
    ∷ filter_graph renditions
    ∷ (video_maps renditions
        ++ (sound_maps renditions ++ hls_args (video_streams renditions) output_dir))

abbrev pub audio_maps : List String
audio_maps =
    each
      (λ i bitrate.
        "-map"
        ∷ "0:a"
        ∷ append_text "-c:a:" (decimal i)
        ∷ "aac"
        ∷ append_text "-b:a:" (decimal i)
        ∷ bitrate
        ∷ [])
      0 audio_ladder

abbrev pub audio_streams : String
audio_streams = joined " " (each (λ i bitrate. append_text "a:" (decimal i) ∷ []) 0 audio_ladder)

unfoldable pub audio_args : (input_path output_dir : String) → List String
audio_args input_path output_dir =
    "-y" ∷ "-i" ∷ input_path ∷ (audio_maps ++ hls_args audio_streams output_dir)

-- The commands of the machine, and `Number.parseInt(stdout.trim(), 10)`.
pub record Machine (W : Type 0) : Type 0 where
  pub make_dir : String → W → Result (Unit {0}) × W
  pub run : (program : String) → List String → W → Result String × W
  pub parse_int : String → Option ℤ

module _ {W : Type 0} (machine : Machine W) where
  abbrev pub read_height : Result String × W → Option ℤ × W
  read_height (err, w) = (none, w)
  read_height (ok stdout, w) = (machine.parse_int stdout, w)

  -- A height of 0, like none, is taken for a source without video.
  unfoldable pub probe_height : String → W → Option ℤ × W
  probe_height input_path w = read_height (
      machine.run "ffprobe"
        ("-v" ∷ "error" ∷ "-select_streams" ∷ "v:0" ∷ "-show_entries" ∷ "stream=height" ∷ "-of"
          ∷ "csv=p=0" ∷ input_path ∷ [])
        w)

  abbrev pub outcome : Result String × W → Result (Unit {0}) × W
  outcome (err, w) = (err, w)
  outcome (ok stdout, w) = (ok tt, w)

  abbrev pub transcode_source :
      (input_path output_dir : String) → Option ℤ × W → Result (Unit {0}) × W
  transcode_source input_path output_dir (none, w) =
      outcome (machine.run "ffmpeg" (audio_args input_path output_dir) w)
  transcode_source input_path output_dir (some (pos zero), w) =
      outcome (machine.run "ffmpeg" (audio_args input_path output_dir) w)
  transcode_source input_path output_dir (some height, w) =
      outcome (machine.run "ffmpeg" (video_args input_path output_dir height) w)

  abbrev pub in_output_dir :
      (input_path output_dir : String) → Result (Unit {0}) × W → Result (Unit {0}) × W
  in_output_dir input_path output_dir (err, w) = (err, w)
  in_output_dir input_path output_dir (ok u, w) =
      transcode_source input_path output_dir (probe_height input_path w)

  unfoldable pub transcode_to_hls : (input_path output_dir : String) → W → Result (Unit {0}) × W
  unfolding probe_height video_args audio_args
  transcode_to_hls input_path output_dir w =
      in_output_dir input_path output_dir (machine.make_dir output_dir w)
