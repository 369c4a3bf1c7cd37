-- ===== src/Frontend/Tests.antt =====
-- Runs of the observation queue and of the playback tracker.
use escld.Prelude.{
  ℕ, ◌*◌, ◌≤◌, String, ◌≡◌, refl, true, false, ◌||◌, none, some, List, [], ◌∷◌, arith, any,
}
use escld.Js.Int.{pos}
use escld.Frontend.Observations.{
  post_impression, ObservationEvent, BatchResponse, Queue, new_queue, has, make_room, flush_now,
  timer_fires, schedule, enqueue, to_retry, retry_all, answered, Reachable, start, enqueued, fired,
  received,
}
use escld.Frontend.Observations.Bounds.{Bounded, Reachable-Bounded}
use escld.Frontend.Observations.Awake.{IsAwake, Reachable-IsAwake}
use escld.Frontend.Observations.Sends.{retried, Reachable-sends, answered-has}
use escld.Frontend.Observations.Sends.Left.{sends, occurs}
use escld.Frontend.Playback.{Time, add, merge, place, played}
use escld.Frontend.Progress.{
  Doubles, Media, MediaEvent, on_playing, on_timeupdate, new_progress, handle, sample, report, emit,
  handle_all,
}
use escld.Frontend.Progress.Order.{IsOrdered, handle_all-IsOrdered}
use escld.Frontend.Playback.Union.{covers, watched, Apart, track, track-union}

abbrev observation : String → ObservationEvent
observation id = record {
  event_id = id;
  kind = post_impression;
  occurred_at = "2026-01-01";
  session_id = "s1";
  observation_token = "t1";
  payload = [];
}

-- One event that is sent by the timer, and whose request fails.
abbrev after_failure : Queue
after_failure = answered 5000 none (timer_fires (enqueue 5000 (observation "e1") new_queue))

after_failure-Reachable : Reachable 5000 (observation "e1" ∷ []) after_failure
unfolding enqueue timer_fires flush_now make_room schedule
after_failure-Reachable =
    received none (observation "e1" ∷ []) (timer_fires (enqueue 5000 (observation "e1") new_queue))
      (fired 5000 (observation "e1" ∷ []) (enqueue 5000 (observation "e1") new_queue)
        (enqueued (observation "e1") [] new_queue start) refl)
      refl

-- The retry waits for twice the delay.
after_failure_timer : after_failure.timer ≡ some 10000
unfolding answered enqueue timer_fires flush_now make_room schedule retry_all to_retry
after_failure_timer = refl

Reachable-Bounded_example : Bounded after_failure
Reachable-Bounded_example =
    Reachable-Bounded 5000 (observation "e1" ∷ []) after_failure after_failure-Reachable

Reachable-IsAwake_example : IsAwake after_failure
Reachable-IsAwake_example =
    Reachable-IsAwake 5000 (observation "e1" ∷ []) after_failure after_failure-Reachable

Reachable-sends_example : sends "e1" after_failure.sent ≤ 3 * occurs "e1" (observation "e1" ∷ [])
Reachable-sends_example =
    Reachable-sends 5000 "e1" (observation "e1" ∷ []) after_failure after_failure-Reachable

abbrev answer : BatchResponse
answer = record { accepted_event_ids = "e1" ∷ []; rejected = []; retryable_event_ids = [] }

abbrev under_way : Queue
under_way = record new_queue {
  flushing = true;
  in_flight =
      record { event = observation "e1"; attempts = 0 }
      ∷ record { event = observation "e2"; attempts = 1 }
      ∷ [];
}

answered-has_example :
    has "e2" (answered 5000 (some answer) under_way).pending
    ≡ (any (retried (some answer) "e2") under_way.in_flight || has "e2" under_way.pending)
answered-has_example = answered-has 5000 "e2" (some answer) under_way

-- Watched to 10, then again from 4 to 12, then from 20 to 30.
abbrev reports : List (Time × Time)
reports =
    (some (pos 20), some (pos 30))
    ∷ (some (pos 4), some (pos 12))
    ∷ (some (pos 0), some (pos 10))
    ∷ []

played-reports : played (track reports) ≡ 22
unfolding add merge place
played-reports = refl

track-union_example :
    ((x : ℕ) → covers x (track reports) ≡ any (λ (from, to). watched x from to) reports)
    × Apart 0 (track reports)
    × (played (track reports) ≤ 30)
track-union_example = track-union 30 reports (omega arith, (omega arith, (omega arith, tt)))

-- A video of ten seconds that was watched for three: the tracker's total is given in seconds here.
abbrev toy_doubles : Doubles
toy_doubles = record { is_near = λ last current. true; played_ms = λ ranges. played ranges * 1000 }

abbrev at_second : ℕ → Media
at_second n = record {
  current_time = pos n;
  seeking = false;
  paused = false;
  ended = false;
  rounded_duration = some (pos 10000);
}

abbrev watching : List (MediaEvent × Media)
watching = (on_playing, at_second 0) ∷ (on_timeupdate, at_second 3) ∷ []

milestone_emitted :
    (handle_all toy_doubles watching (new_progress true)).emitted
    ≡ record {
      media_played_ms = 3000;
      media_duration_ms = 10000;
      playback_sequence = 1;
      milestone_percent = 25;
    }
      ∷ []
unfolding handle sample report emit add merge place
milestone_emitted = refl

handle_all-IsOrdered_example :
    IsOrdered (handle_all toy_doubles watching (new_progress true)).emitted
handle_all-IsOrdered_example = handle_all-IsOrdered toy_doubles true watching
