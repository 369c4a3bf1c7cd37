-- ===== src/Frontend/Impressions.antt =====
-- One qualified impression and the dwell time of a post on the screen: the effect of
-- `useQualifiedImpression` in frontend/src/hooks/use-qualified-impression.ts.
pub mod Order
pub mod InView
pub mod Tests
use escld.Prelude.{
  ℕ, ◌+◌, ◌-◌, ◌*◌, ◌/◌, min, String, Bool, true, false, not, ◌&&◌, ◌||◌, Option, none, some, List,
  [], ◌∷◌, ◌==◌, leb, if◌then◌else◌,
}

-- Times are in microseconds; what `performance.now()` returns never falls, and is read once for
-- each handler. The rounding of doubles is left out.
abbrev pub microseconds : ℕ
microseconds = 1000

abbrev pub min_visible_duration_ms : ℕ
min_visible_duration_ms = 1000

abbrev pub dwell_report_interval_ms : ℕ
dwell_report_interval_ms = 5000

abbrev pub max_dwell_ms : ℕ
max_dwell_ms = 3600000

-- What is enqueued as an observation. The visible fraction is a double that is only compared, in
-- the unit of the smallest double.
pub data Observation : Type 0 where
  impression : (visible_duration_ms visible_fraction : ℕ) → Observation
  dwell : (active_dwell_ms observation_sequence : ℕ) → Observation

-- The variables of the effect, the tokens that any effect has observed, and whether the document is
-- visible. `impression_timer` is the time at which the timer was set; `emitted` has the last
-- observation first.
pub record View : Type 0 where
  pub observed_tokens : List String
  pub visible : Bool
  pub impression_timer : Option ℕ
  pub dwell_timer : Bool
  pub visible_fraction : ℕ
  pub dwell_started_at : Option ℕ
  pub active_dwell : ℕ
  pub last_reported_dwell_ms : ℕ
  pub observation_sequence : ℕ
  pub qualified : Bool
  pub emitted : List Observation

abbrev pub has_token : String → List String → Bool
has_token token [] = false
has_token token (t ∷ ts) = t == token || has_token token ts

-- The effect starts only where the token has not been observed.
abbrev pub new_view : List String → Bool → View
new_view observed_tokens visible = record {
  observed_tokens = observed_tokens;
  visible = visible;
  impression_timer = none;
  dwell_timer = false;
  visible_fraction = 0;
  dwell_started_at = none;
  active_dwell = 0;
  last_reported_dwell_ms = 0;
  observation_sequence = 0;
  qualified = false;
  emitted = [];
}

abbrev pub stop_impression_timer : View → View
stop_impression_timer v = record v { impression_timer = none }

unfoldable pub accumulate_dwell : ℕ → View → View
accumulate_dwell now v = elim v.dwell_started_at [
  | none ↦ v
  | some t ↦ record v {
    active_dwell = min (max_dwell_ms * microseconds) (v.active_dwell + (now - t));
    dwell_started_at = some now;
  }
]

-- `Math.round(activeDwellMs)`.
abbrev pub rounded_dwell_ms : View → ℕ
rounded_dwell_ms v = (v.active_dwell + 500) / microseconds

abbrev pub stop_at_limit : View → View
stop_at_limit v =
    if leb (max_dwell_ms * microseconds) v.active_dwell && v.dwell_timer
    then record v { dwell_timer = false; dwell_started_at = none }
    else v

-- The part of `reportDwell` after the accumulation.
unfoldable pub report_accumulated : View → View
report_accumulated v =
    if not v.qualified || leb (rounded_dwell_ms v) v.last_reported_dwell_ms
    then v
    else stop_at_limit (record v {
      observation_sequence = v.observation_sequence + 1;
      last_reported_dwell_ms = rounded_dwell_ms v;
      emitted = dwell (rounded_dwell_ms v) (v.observation_sequence + 1) ∷ v.emitted;
    })

unfoldable pub report_dwell : ℕ → View → View
report_dwell now v = report_accumulated (accumulate_dwell now v)

unfoldable pub stop_dwell : ℕ → View → View
stop_dwell now v = record (report_dwell now v) { dwell_started_at = none; dwell_timer = false }

abbrev pub is_some {ℓ} : {A : Type ℓ} → Option A → Bool
is_some none = false
is_some (some a) = true

unfoldable pub start_dwell : ℕ → View → View
start_dwell now v =
    if is_some v.dwell_started_at || leb (max_dwell_ms * microseconds) v.active_dwell
    then v
    else record v { dwell_started_at = some now; dwell_timer = true }

unfoldable pub start_impression_timer : ℕ → View → View
start_impression_timer now v =
    if v.qualified || is_some v.impression_timer || not v.visible
    then v
    else record v { impression_timer = some now }

-- The timer that `startImpressionTimer` sets fires.
unfoldable pub impression_due : String → View → View
impression_due token v =
    if has_token token v.observed_tokens then record v { impression_timer = none } else record v {
      impression_timer = none;
      observed_tokens = token ∷ v.observed_tokens;
      qualified = true;
      emitted = impression min_visible_duration_ms v.visible_fraction ∷ v.emitted;
    }

-- `elsewhere` is another effect that observes a token. A timer fires only while it is set, the
-- first one when it has run for its time.
pub data ViewEvent : Type 0 where
  visibility_change : Bool → ViewEvent
  intersection : Option ℕ → ViewEvent
  impression_timeout : ViewEvent
  dwell_interval : ViewEvent
  clean_up : ViewEvent
  elsewhere : String → ViewEvent

abbrev pub timer_is_due : ℕ → Option ℕ → Bool
timer_is_due now none = false
timer_is_due now (some t) = leb (t + min_visible_duration_ms * microseconds) now

abbrev pub ratio : Option ℕ → ℕ
ratio none = 0
ratio (some r) = r

-- `half` is MIN_VISIBLE_FRACTION.
module _ (half : ℕ) where
  abbrev pub is_in_view : View → Bool
  is_in_view v = v.visible && leb half v.visible_fraction

  -- What the handlers of a change of visibility and of an intersection do after they took it in.
  unfoldable pub update : ℕ → View → View
  update now v =
      if is_in_view v
      then start_dwell now (start_impression_timer now v)
      else stop_dwell now (stop_impression_timer v)

  unfoldable pub handle : String → ℕ → ViewEvent → View → View
  handle token now (visibility_change b) v = update now (record v { visible = b })
  handle token now (intersection r) v = update now (record v { visible_fraction = ratio r })
  handle token now impression_timeout v =
      if timer_is_due now v.impression_timer then impression_due token v else v
  handle token now dwell_interval v = if v.dwell_timer then report_dwell now v else v
  handle token now clean_up v = stop_dwell now (stop_impression_timer v)
  handle token now (elsewhere t) v = record v { observed_tokens = t ∷ v.observed_tokens }

  -- Events with their times, in their order.
  abbrev pub handle_all : String → List (ℕ × ViewEvent) → View → View
  handle_all token [] v = v
  handle_all token ((now, e) ∷ more) v = handle_all token more (handle token now e v)
