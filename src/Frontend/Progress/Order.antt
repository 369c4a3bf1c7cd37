-- ===== src/Frontend/Progress/Order.antt =====
-- What the reports of `useMediaProgress` keep to, whatever happens to the video.
pub mod Emissions
use escld.Prelude.{
  ℕ, ◌≤◌, min, ◌≡◌, refl, sym, ap, ◌∙◌, subst, ◌⊎◌, inl, inr, Bool, true, false, not, ◌&&◌, Option,
  none, some, List, [], ◌∷◌, arith, leb, eqb, Bool-cases, length, All,
}
use escld.Js.Int.{ℤ, pos, negsuc}
use escld.Frontend.Progress.{
  max_media_duration_ms, milestones, Media, Doubles, Progress, new_progress, duration_ms, contains,
  crossed, sample, report, MediaEvent, on_playing, on_timeupdate, on_pause, on_ended, on_waiting,
  on_seeking, on_seeked, on_hidden, on_visible, on_cleanup, handle, handle_all,
}
pub use escld.Frontend.Progress.Order.Emissions.{IsOrdered}
use escld.Frontend.Progress.Order.Emissions.{IsSound, Rising, crossed-Fresh, emit_crossed-IsSound}

duration-bounded : (o : Option ℤ) → duration_ms o ≤ max_media_duration_ms
duration-bounded none = omega arith
duration-bounded (some (pos n)) = omega arith
duration-bounded (some (negsuc n)) = omega arith

-- The part of the state that a report depends on stays the same.
moved-IsSound :
    (s t : Progress)
    → t.playback_sequence ≡ s.playback_sequence
    → t.emitted ≡ s.emitted
    → t.last_reported_played_ms ≡ s.last_reported_played_ms
    → t.reported_milestones ≡ s.reported_milestones
    → IsSound s
    → IsSound t
moved-IsSound s t a b c d sound = record {
  counted = a ∙ sound.counted ∙ ap length (sym b);
  reached =
      subst (λ es. All (λ f. f.media_played_ms ≤ t.last_reported_played_ms) es) (sym b)
        (subst (λ n. All (λ f. f.media_played_ms ≤ n) s.emitted) (sym c) sound.reached);
  marked =
      subst
        (λ es.
          All
            (λ f.
              (f.milestone_percent ≡ 0)
              ⊎ (contains f.milestone_percent t.reported_milestones ≡ true))
            es)
        (sym b)
        (subst
          (λ ms.
            All (λ f. (f.milestone_percent ≡ 0) ⊎ (contains f.milestone_percent ms ≡ true))
              s.emitted)
          (sym d) sound.marked);
  ordered = subst IsOrdered (sym b) sound.ordered;
}

module _ (doubles : Doubles) where
  report-IsSound : (media : Media) (s : Progress) → IsSound s → IsSound (report doubles media s)
  unfolding report
  report-IsSound media s sound = elim (Bool-cases (eqb (duration_ms media.rounded_duration) 0)) [
    | inl unknown ↦ rw (unknown, report) sound
    | inr known ↦ elim (Bool-cases (leb played s.last_reported_played_ms)) [
      | inl behind ↦ rw (known, behind, report) sound
      | inr ahead ↦
          rw (known, ahead, report)
            (emit_crossed-IsSound played (duration_ms media.rounded_duration)
              (crossed played (duration_ms media.rounded_duration) s.reported_milestones milestones)
              s sound (further played s.last_reported_played_ms ahead) (omega arith)
              (duration-bounded media.rounded_duration)
              (crossed-Fresh played (duration_ms media.rounded_duration) s.reported_milestones
                milestones rising))
    ]
  ]
    where
      played : ℕ
      played = min (doubles.played_ms s.ranges) (duration_ms media.rounded_duration)

      further : (a b : ℕ) → leb a b ≡ false → b ≤ a
      further a b h = ground arith

      rising : Rising milestones
      rising = (
        omega arith,
        (omega arith, (omega arith, (omega arith, tt))),
        (
          omega arith,
          (omega arith, (omega arith, tt)),
          (omega arith, (omega arith, tt), (omega arith, tt, tt)),
        ),
      )

  handle-IsSound :
      (event : MediaEvent) (media : Media) (s : Progress)
      → IsSound s
      → IsSound (handle doubles event media s)
  unfolding handle sample
  handle-IsSound on_playing media s sound =
      moved-IsSound s (handle doubles on_playing media s) refl refl refl refl sound
  handle-IsSound on_seeking media s sound =
      moved-IsSound s (handle doubles on_seeking media s) refl refl refl refl sound
  handle-IsSound on_seeked media s sound =
      moved-IsSound s (handle doubles on_seeked media s) refl refl refl refl sound
  handle-IsSound on_timeupdate media s sound =
      let moved : Progress = sample doubles media s in
      report-IsSound media moved (moved-IsSound s moved refl refl refl refl sound)
  handle-IsSound on_cleanup media s sound =
      let moved : Progress = sample doubles media s in
      report-IsSound media moved (moved-IsSound s moved refl refl refl refl sound)
  handle-IsSound on_pause media s sound =
      let moved : Progress = record (sample doubles media s) { playing = false } in
      report-IsSound media moved (moved-IsSound s moved refl refl refl refl sound)
  handle-IsSound on_ended media s sound =
      let moved : Progress = record (sample doubles media s) { playing = false } in
      report-IsSound media moved (moved-IsSound s moved refl refl refl refl sound)
  handle-IsSound on_waiting media s sound =
      let moved : Progress = record (sample doubles media s) {
        playing = false;
        last_position = none;
      } in
      report-IsSound media moved (moved-IsSound s moved refl refl refl refl sound)
  handle-IsSound on_hidden media s sound =
      let moved : Progress = record (sample doubles media s) {
        foreground = false;
        last_position = none;
      } in
      report-IsSound media moved (moved-IsSound s moved refl refl refl refl sound)
  handle-IsSound on_visible media s sound =
      elim (Bool-cases (not media.paused && not media.ended)) [
        | inl plays ↦
            rw (plays, handle)
              (moved-IsSound s
                (record s {
                  foreground = true;
                  playing = true;
                  last_position = some media.current_time;
                })
                refl refl refl refl sound)
        | inr stopped ↦
            rw (stopped, handle)
              (moved-IsSound s (record s { foreground = true }) refl refl refl refl sound)
      ]

  handle_all-IsSound :
      (events : List (MediaEvent × Media)) (s : Progress)
      → IsSound s
      → IsSound (handle_all doubles events s)
  handle_all-IsSound [] s sound = sound
  handle_all-IsSound ((event, media) ∷ events) s sound =
      handle_all-IsSound events (handle doubles event media s) (handle-IsSound event media s sound)

  -- Whatever events come in, what the effect emits is in order: the sequence counts the observations
  -- from 1, the played time never falls and is at most the duration, which is at most four hours, and
  -- no milestone is reported twice.
  pub handle_all-IsOrdered :
      (visible : Bool) (events : List (MediaEvent × Media))
      → IsOrdered (handle_all doubles events (new_progress visible)).emitted
  handle_all-IsOrdered visible events =
      (handle_all-IsSound events (new_progress visible)
        (record { counted = refl; reached = tt; marked = tt; ordered = tt })).ordered
