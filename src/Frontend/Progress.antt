-- ===== src/Frontend/Progress.antt =====
-- The reports of playback: the handlers of `useMediaProgress` in
-- frontend/src/hooks/use-media-progress.ts.
pub mod Order
use escld.Prelude.{
  ℕ, ◌+◌, ◌-◌, ◌*◌, min, max, Bool, true, false, not, ◌&&◌, ◌||◌, Option, none, some, List, [], ◌∷◌,
  leb, eqb, if◌then◌else◌,
}
use escld.Js.Int.{ℤ, pos, negsuc}
use escld.Frontend.Playback.{Range, add}

abbrev pub report_interval_ms : ℕ
report_interval_ms = 5000

abbrev pub max_media_duration_ms : ℕ
max_media_duration_ms = 14400000

abbrev pub milestones : List ℕ
milestones = 25 ∷ 50 ∷ 75 ∷ 95 ∷ []

-- What a handler reads of the video element; the duration is `Math.round(media.duration * 1_000)`,
-- where that is finite.
pub record Media : Type 0 where
  pub current_time : ℤ
  pub seeking : Bool
  pub paused : Bool
  pub ended : Bool
  pub rounded_duration : Option ℤ

-- What is computed with doubles: `current - last <= 15`, and `playedMs`.
pub record Doubles : Type 0 where
  pub is_near : (last current : ℤ) → Bool
  pub played_ms : List Range → ℕ

pub record Emission : Type 0 where
  pub media_played_ms : ℕ
  pub media_duration_ms : ℕ
  pub playback_sequence : ℕ
  pub milestone_percent : ℕ

-- The variables of the effect; `emitted` are the observations, the last one first.
pub record Progress : Type 0 where
  pub ranges : List Range
  pub reported_milestones : List ℕ
  pub last_position : Option ℤ
  pub last_reported_played_ms : ℕ
  pub playback_sequence : ℕ
  pub foreground : Bool
  pub playing : Bool
  pub emitted : List Emission

abbrev pub new_progress : Bool → Progress
new_progress visible = record {
  ranges = [];
  reported_milestones = [];
  last_position = none;
  last_reported_played_ms = 0;
  playback_sequence = 0;
  foreground = visible;
  playing = false;
  emitted = [];
}

abbrev pub duration_ms : Option ℤ → ℕ
duration_ms none = 0
duration_ms (some (pos n)) = min n max_media_duration_ms
duration_ms (some (negsuc n)) = 0

abbrev pub contains : ℕ → List ℕ → Bool
contains m [] = false
contains m (x ∷ xs) = eqb x m || contains m xs

unfoldable pub emit : (milestone played total : ℕ) → Progress → Progress
emit milestone played total s = record s {
  playback_sequence = s.playback_sequence + 1;
  emitted =
      record {
        media_played_ms = played;
        media_duration_ms = total;
        playback_sequence = s.playback_sequence + 1;
        milestone_percent = milestone;
      }
      ∷ s.emitted;
  last_reported_played_ms = max s.last_reported_played_ms played;
}

-- `completion >= milestone / 100`, exact: two such quotients are too far apart for doubles to confuse.
abbrev pub crossed : (played total : ℕ) → List ℕ → List ℕ → List ℕ
crossed played total reported [] = []
crossed played total reported (m ∷ ms) =
    if leb (m * total) (played * 100) && not (contains m reported)
    then m ∷ crossed played total reported ms
    else crossed played total reported ms

abbrev pub emit_all : (played total : ℕ) → List ℕ → Progress → Progress
emit_all played total [] s = s
emit_all played total (m ∷ ms) s =
    emit_all played total ms
      (emit m played total (record s { reported_milestones = m ∷ s.reported_milestones }))

abbrev pub emit_crossed : (played total : ℕ) → List ℕ → Progress → Progress
emit_crossed played total [] s =
    if leb report_interval_ms (played - s.last_reported_played_ms) then emit 0 played total s else s
emit_crossed played total (m ∷ ms) s = emit_all played total (m ∷ ms) s

-- The events of the video and of the page, and the end of the effect.
pub data MediaEvent : Type 0 where
  on_playing on_timeupdate on_pause on_ended on_waiting on_seeking on_seeked : MediaEvent
  on_hidden on_visible on_cleanup : MediaEvent

module _ (doubles : Doubles) where
  abbrev pub add_from : Option ℤ → ℤ → List Range → List Range
  add_from none current ranges = ranges
  add_from (some last) current ranges =
      if doubles.is_near last current then add (some last) (some current) ranges else ranges

  unfoldable pub sample : Media → Progress → Progress
  sample media s = record s {
    ranges =
        if s.foreground && s.playing && not media.seeking
        then add_from s.last_position media.current_time s.ranges
        else s.ranges;
    last_position = some media.current_time;
  }

  unfoldable pub report : Media → Progress → Progress
  unfolding emit
  report media s =
      let total = duration_ms media.rounded_duration in
      let played = min (doubles.played_ms s.ranges) total in
      if eqb total 0
      then s
      else if leb played s.last_reported_played_ms
      then s
      else emit_crossed played total (crossed played total s.reported_milestones milestones) s

  unfoldable pub handle : MediaEvent → Media → Progress → Progress
  unfolding sample report
  handle on_playing media s = record s { playing = true; last_position = some media.current_time }
  handle on_timeupdate media s = report media (sample media s)
  handle on_pause media s = report media (record (sample media s) { playing = false })
  handle on_ended media s = report media (record (sample media s) { playing = false })
  handle on_waiting media s =
      report media (record (sample media s) { playing = false; last_position = none })
  handle on_seeking media s = record s { last_position = none }
  handle on_seeked media s = record s { last_position = some media.current_time }
  handle on_hidden media s =
      report media (record (sample media s) { foreground = false; last_position = none })
  handle on_visible media s =
      if not media.paused && not media.ended
      then record s { foreground = true; playing = true; last_position = some media.current_time }
      else record s { foreground = true }
  handle on_cleanup media s = report media (sample media s)

  abbrev pub handle_all : List (MediaEvent × Media) → Progress → Progress
  handle_all [] s = s
  handle_all ((event, media) ∷ events) s = handle_all events (handle event media s)
