-- ===== src/Frontend/Impressions/Order.antt =====
-- The observations of one view: frontend/src/hooks/use-qualified-impression.ts.
use escld.Prelude.{
  ℕ, ◌+◌, ◌*◌, ◌≤◌, ◌<◌, String, ◌≡◌, refl, inl, inr, Bool, true, false, Option, none, some, List,
  [], ◌∷◌, arith, if◌then◌else◌, Bool-cases,
}
use escld.Frontend.Impressions.{
  Observation, impression, dwell, View, new_view, accumulate_dwell, report_accumulated,
  report_dwell, stop_dwell, start_dwell, start_impression_timer, impression_due,
  stop_impression_timer, update, ViewEvent, visibility_change, intersection, impression_timeout,
  dwell_interval, clean_up, elsewhere, handle, handle_all, max_dwell_ms, microseconds, is_some,
  timer_is_due, is_in_view, ratio, min_visible_duration_ms,
}

abbrev pub has_impression : List Observation → Bool
has_impression [] = false
has_impression (impression d f ∷ os) = true
has_impression (dwell n s ∷ os) = has_impression os

abbrev pub last_dwell : List Observation → ℕ
last_dwell [] = 0
last_dwell (impression d f ∷ os) = last_dwell os
last_dwell (dwell n s ∷ os) = n

abbrev pub last_sequence : List Observation → ℕ
last_sequence [] = 0
last_sequence (impression d f ∷ os) = last_sequence os
last_sequence (dwell n s ∷ os) = s

-- The last observation first: one impression at most, with a duration of a second, dwell times only
-- after it, numbered from one, growing, and of an hour at most.
abbrev pub IsOrdered : List Observation → Type 0
IsOrdered [] = Unit
IsOrdered (impression d f ∷ os) =
    (has_impression os ≡ false) × (d ≡ min_visible_duration_ms) × IsOrdered os
IsOrdered (dwell n s ∷ os) =
    (has_impression os ≡ true)
    × (last_dwell os < n)
    × (n ≤ max_dwell_ms)
    × (s ≡ last_sequence os + 1)
    × IsOrdered os

record IsValid (v : View) : Type 0 where
  pub ordered : IsOrdered v.emitted
  pub dwells : last_dwell v.emitted ≡ v.last_reported_dwell_ms
  pub sequences : last_sequence v.emitted ≡ v.observation_sequence
  pub impressions : has_impression v.emitted ≡ v.qualified
  pub bounded : v.active_dwell ≤ max_dwell_ms * microseconds
  -- The timer runs only before the impression.
  pub waiting : is_some v.impression_timer ≡ true → v.qualified ≡ false

accumulate_dwell-IsValid : (now : ℕ) (v : View) → IsValid v → IsValid (accumulate_dwell now v)
unfolding accumulate_dwell
accumulate_dwell-IsValid now v h = ground arith

report_accumulated-IsValid : (v : View) → IsValid v → IsValid (report_accumulated v)
unfolding report_accumulated
report_accumulated-IsValid v h = ground arith

stop_dwell-IsValid : (now : ℕ) (v : View) → IsValid v → IsValid (stop_dwell now v)
unfolding stop_dwell report_dwell
stop_dwell-IsValid now v h =
    let k =
      report_accumulated-IsValid (accumulate_dwell now v) (accumulate_dwell-IsValid now v h) in
    record {
      ordered = k.ordered;
      dwells = k.dwells;
      sequences = k.sequences;
      impressions = k.impressions;
      bounded = k.bounded;
      waiting = k.waiting;
    }

start_dwell-IsValid : (now : ℕ) (v : View) → IsValid v → IsValid (start_dwell now v)
unfolding start_dwell
start_dwell-IsValid now v h = ground arith

start_impression_timer-IsValid :
    (now : ℕ) (v : View) → IsValid v → IsValid (start_impression_timer now v)
unfolding start_impression_timer
start_impression_timer-IsValid now v h = ground arith

impression_due-IsValid :
    (token : String) (v : View) → v.qualified ≡ false → IsValid v → IsValid (impression_due token v)
unfolding impression_due
impression_due-IsValid token v q h = ground arith

pub if-both {ℓ κ} :
    {A : Type ℓ} (P : A → Type κ) (b : Bool) (x y : A) → P x → P y → P (if b then x else y)
if-both P true x y p q = p
if-both P false x y p q = q

pub timer_is_set : (now : ℕ) (o : Option ℕ) → timer_is_due now o ≡ true → is_some o ≡ true
timer_is_set now none h = h
timer_is_set now (some t) h = refl

stopped-IsValid : (v : View) → IsValid v → IsValid (stop_impression_timer v)
stopped-IsValid v h = ground arith

module _ (half : ℕ) (token : String) where
  update-IsValid : (now : ℕ) (v : View) → IsValid v → IsValid (update half now v)
  unfolding update
  update-IsValid now v h = elim (Bool-cases (is_in_view half v)) [
    | inl e ↦
        rw (e, update)
          (start_dwell-IsValid now (start_impression_timer now v)
            (start_impression_timer-IsValid now v h))
    | inr e ↦
        rw (e, update) (stop_dwell-IsValid now (stop_impression_timer v) (stopped-IsValid v h))
  ]

  handle-IsValid :
      (now : ℕ) (e : ViewEvent) (v : View) → IsValid v → IsValid (handle half token now e v)
  unfolding handle report_dwell
  handle-IsValid now (visibility_change b) v h =
      update-IsValid now (record v { visible = b })
        (record {
          ordered = h.ordered;
          dwells = h.dwells;
          sequences = h.sequences;
          impressions = h.impressions;
          bounded = h.bounded;
          waiting = h.waiting;
        })
  handle-IsValid now (intersection r) v h =
      update-IsValid now (record v { visible_fraction = ratio r })
        (record {
          ordered = h.ordered;
          dwells = h.dwells;
          sequences = h.sequences;
          impressions = h.impressions;
          bounded = h.bounded;
          waiting = h.waiting;
        })
  handle-IsValid now impression_timeout v h =
      elim (Bool-cases (timer_is_due now v.impression_timer)) [
        | inl e ↦
            rw (e, handle)
              (impression_due-IsValid token v (h.waiting (timer_is_set now v.impression_timer e)) h)
        | inr e ↦ rw (e, handle) h
      ]
  handle-IsValid now dwell_interval v h =
      if-both IsValid v.dwell_timer (report_dwell now v) v
        (report_accumulated-IsValid (accumulate_dwell now v) (accumulate_dwell-IsValid now v h)) h
  handle-IsValid now clean_up v h =
      stop_dwell-IsValid now (stop_impression_timer v) (stopped-IsValid v h)
  handle-IsValid now (elsewhere t) v h = record {
    ordered = h.ordered;
    dwells = h.dwells;
    sequences = h.sequences;
    impressions = h.impressions;
    bounded = h.bounded;
    waiting = h.waiting;
  }

  handle_all-IsValid :
      (trace : List (ℕ × ViewEvent)) (v : View)
      → IsValid v
      → IsValid (handle_all half token trace v)
  handle_all-IsValid [] v h = h
  handle_all-IsValid ((now, e) ∷ more) v h =
      handle_all-IsValid more (handle half token now e v) (handle-IsValid now e v h)

  -- Whatever events come in, in whatever order, the observations of a view are ordered.
  pub emitted-IsOrdered :
      (trace : List (ℕ × ViewEvent)) (observed_tokens : List String) (visible : Bool)
      → IsOrdered (handle_all half token trace (new_view observed_tokens visible)).emitted
  emitted-IsOrdered trace observed_tokens visible =
      (handle_all-IsValid trace (new_view observed_tokens visible) (record {
        ordered = tt;
        dwells = refl;
        sequences = refl;
        impressions = refl;
        bounded = omega arith;
        waiting = λ h. refl;
      })).ordered
