-- ===== src/Frontend/Impressions/InView/Timers.antt =====
-- The view of hooks/use-qualified-impression.ts beside the screen it is shown on, and the
-- operations that leave the timer of the impression alone.
use escld.Prelude.{
  ℕ, ◌≤◌, ◌≡◌, ◌⊎◌, Bool, true, false, ◌&&◌, Option, none, some, List, [], ◌∷◌, arith, leb,
}
use escld.Frontend.Impressions.{
  View, accumulate_dwell, report_accumulated, report_dwell, stop_dwell, start_dwell,
  start_impression_timer, ViewEvent, visibility_change, intersection, ratio,
}

-- What the events say of the screen, and since when the post is in view without a break.
pub record Screen : Type 0 where
  pub visible : Bool
  pub fraction : ℕ
  pub since : Option ℕ

abbrev pub since_when : Option ℕ → ℕ → Bool → Option ℕ
since_when since now false = none
since_when none now true = some now
since_when (some s) now true = some s

module _ (half : ℕ) where
  abbrev pub watch : ℕ → (visible : Bool) (fraction : ℕ) → Option ℕ → Screen
  watch now visible fraction since = record {
    visible = visible;
    fraction = fraction;
    since = since_when since now (visible && leb half fraction);
  }

  abbrev pub screen : ℕ → ViewEvent → Screen → Screen
  screen now (visibility_change b) s = watch now b s.fraction s.since
  screen now (intersection r) s = watch now s.visible (ratio r) s.since
  screen now _ s = s

  abbrev pub screen_all : List (ℕ × ViewEvent) → Screen → Screen
  screen_all [] s = s
  screen_all ((now, e) ∷ more) s = screen_all more (screen now e s)

  -- The time since when the post is in view after the events.
  abbrev pub in_view_since : Bool → List (ℕ × ViewEvent) → Option ℕ
  in_view_since visible trace =
      (screen_all trace (record { visible = visible; fraction = 0; since = none })).since

abbrev pub AtMost : Option ℕ → ℕ → Type 0
AtMost none t = Unit
AtMost (some s) t = s ≤ t

abbrev pub Precedes : Option ℕ → Option ℕ → Type 0
Precedes since none = Unit
Precedes none (some u) = ⊥
Precedes (some s) (some u) = s ≤ u

-- Times never fall.
abbrev pub Later : ℕ → List (ℕ × ViewEvent) → Type 0
Later t [] = Unit
Later t ((now, e) ∷ more) = (t ≤ now) × Later now more

pub record IsWatched (half t : ℕ) (v : View) (s : Screen) : Type 0 where
  pub same_visible : v.visible ≡ s.visible
  pub same_fraction : v.visible_fraction ≡ s.fraction
  pub past : AtMost s.since t
  pub timed : Precedes s.since v.impression_timer

-- The dwell timer leaves the rest alone.
pub record SameView (v w : View) : Type 0 where
  pub visible : v.visible ≡ w.visible
  pub fraction : v.visible_fraction ≡ w.visible_fraction
  pub timer : v.impression_timer ≡ w.impression_timer
  pub same_qualified : v.qualified ≡ w.qualified

accumulate_dwell-SameView : (now : ℕ) (v : View) → SameView (accumulate_dwell now v) v
unfolding accumulate_dwell
accumulate_dwell-SameView now v = ground arith

report_accumulated-SameView : (v : View) → SameView (report_accumulated v) v
unfolding report_accumulated
report_accumulated-SameView v = ground arith

pub report_dwell-SameView : (now : ℕ) (v : View) → SameView (report_dwell now v) v
unfolding report_dwell
report_dwell-SameView now v =
    ground
      (arith, report_accumulated-SameView (accumulate_dwell now v), accumulate_dwell-SameView now v)

pub stop_dwell-SameView : (now : ℕ) (v : View) → SameView (stop_dwell now v) v
unfolding stop_dwell
stop_dwell-SameView now v =
    let k = report_dwell-SameView now v in
    record {
      visible = k.visible;
      fraction = k.fraction;
      timer = k.timer;
      same_qualified = k.same_qualified;
    }

pub start_dwell-SameView : (now : ℕ) (v : View) → SameView (start_dwell now v) v
unfolding start_dwell
start_dwell-SameView now v = ground arith

pub Precedes-none : (since : Option ℕ) (timer : Option ℕ) → timer ≡ none → Precedes since timer
Precedes-none since none e = tt
Precedes-none since (some u) e = cc

pub AtMost-mono : (o : Option ℕ) (t u : ℕ) → t ≤ u → AtMost o t → AtMost o u
AtMost-mono none t u h k = tt
AtMost-mono (some s) t u h k = omega arith

pub start_impression_timer-SameScreen :
    (now : ℕ) (v : View)
    → ((start_impression_timer now v).visible ≡ v.visible)
      × ((start_impression_timer now v).visible_fraction ≡ v.visible_fraction)
unfolding start_impression_timer
start_impression_timer-SameScreen now v = ground arith

pub started_timer :
    (now : ℕ) (v : View)
    → ((start_impression_timer now v).impression_timer ≡ v.impression_timer)
      ⊎ ((start_impression_timer now v).impression_timer ≡ some now)
unfolding start_impression_timer
started_timer now v = ground arith

pub Precedes-kept :
    (since timer : Option ℕ) (now : ℕ)
    → Precedes since timer
    → AtMost since now
    → Precedes (since_when since now true) timer
Precedes-kept since none now h k = tt
Precedes-kept none (some u) now h k = absurd h
Precedes-kept (some s) (some u) now h k = h

pub Precedes-now :
    (since : Option ℕ) (now : ℕ)
    → AtMost since now
    → Precedes (since_when since now true) (some now)
Precedes-now none now k = omega arith
Precedes-now (some s) now k = k

pub AtMost-since :
    (since : Option ℕ) (now : ℕ) (b : Bool) → AtMost since now → AtMost (since_when since now b) now
AtMost-since since now false k = tt
AtMost-since none now true k = omega arith
AtMost-since (some s) now true k = k
