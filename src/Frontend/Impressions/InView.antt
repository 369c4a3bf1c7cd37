-- ===== src/Frontend/Impressions/InView.antt =====
-- How long a post is in view before its impression counts:
-- frontend/src/hooks/use-qualified-impression.ts.
pub mod Timers
use escld.Prelude.{
  ℕ, ◌+◌, ◌*◌, ◌≤◌, String, ◌≡◌, refl, sym, ◌∙◌, subst, inl, inr, Bool, true, false, Option, none,
  some, List, [], ◌∷◌, arith, leb→le, Bool-cases,
}
use escld.Frontend.Impressions.Order.{if-both}
use escld.Frontend.Impressions.{
  View, new_view, report_dwell, stop_dwell, start_impression_timer, impression_due,
  stop_impression_timer, update, ViewEvent, visibility_change, intersection, impression_timeout,
  dwell_interval, clean_up, elsewhere, handle, handle_all, timer_is_due, is_in_view, ratio,
  min_visible_duration_ms, microseconds,
}
pub use escld.Frontend.Impressions.InView.Timers.{in_view_since}
use escld.Frontend.Impressions.InView.Timers.{
  Screen, since_when, watch, screen, screen_all, AtMost, Precedes, Later, IsWatched, SameView,
  report_dwell-SameView, stop_dwell-SameView, start_dwell-SameView, Precedes-none, AtMost-mono,
  start_impression_timer-SameScreen, started_timer, Precedes-kept, Precedes-now, AtMost-since,
}

module _ (half : ℕ) where
  abbrev view_of : ℕ → View → Option ℕ → Screen
  view_of now v since = watch half now v.visible v.visible_fraction since

  -- `update` after the screen was looked at.
  update-IsWatched :
      (now : ℕ) (v : View) (since : Option ℕ)
      → AtMost since now
      → Precedes since v.impression_timer
      → IsWatched half now (update half now v) (view_of now v since)
  unfolding update
  update-IsWatched now v since past timed = elim (Bool-cases (is_in_view half v)) [
    | inl e ↦
        let same = start_dwell-SameView now (start_impression_timer now v) in
        let (p, q) = start_impression_timer-SameScreen now v in
        rw (e, update)
          (record {
            same_visible = same.visible ∙ p;
            same_fraction = same.fraction ∙ q;
            past = AtMost-since since now true past;
            timed =
                subst (Precedes (since_when since now true)) (sym same.timer)
                  (elim (started_timer now v) [
                    | inl k ↦
                        subst (Precedes (since_when since now true)) (sym k)
                          (Precedes-kept since v.impression_timer now timed past)
                    | inr k ↦
                        subst (Precedes (since_when since now true)) (sym k)
                          (Precedes-now since now past)
                  ]);
          })
    | inr e ↦
        let same = stop_dwell-SameView now (stop_impression_timer v) in
        rw (e, update)
          (record {
            same_visible = same.visible;
            same_fraction = same.fraction;
            past = tt;
            timed =
                Precedes-none none (stop_dwell now (stop_impression_timer v)).impression_timer
                  same.timer;
          })
  ]

  -- Dwell time changes nothing that the screen shows.
  IsWatched-SameView :
      (t now : ℕ) (v w : View) (s : Screen)
      → t ≤ now
      → SameView w v
      → IsWatched half t v s
      → IsWatched half now w s
  IsWatched-SameView t now v w s later same h = record {
    same_visible = same.visible ∙ h.same_visible;
    same_fraction = same.fraction ∙ h.same_fraction;
    past = AtMost-mono s.since t now later h.past;
    timed = subst (Precedes s.since) (sym same.timer) h.timed;
  }

  untimed :
      (t now : ℕ) (v w : View) (s : Screen)
      → t ≤ now
      → w.visible ≡ v.visible
      → w.visible_fraction ≡ v.visible_fraction
      → w.impression_timer ≡ none
      → IsWatched half t v s
      → IsWatched half now w s
  untimed t now v w s later p q e h = record {
    same_visible = p ∙ h.same_visible;
    same_fraction = q ∙ h.same_fraction;
    past = AtMost-mono s.since t now later h.past;
    timed = Precedes-none s.since w.impression_timer e;
  }

  impression_due-untimed :
      (token : String) (v : View)
      → ((impression_due token v).visible ≡ v.visible)
        × ((impression_due token v).visible_fraction ≡ v.visible_fraction)
        × ((impression_due token v).impression_timer ≡ none)
  unfolding impression_due
  impression_due-untimed token v = ground arith

  module _ (token : String) where
    handle-IsWatched :
        (t now : ℕ) (e : ViewEvent) (v : View) (s : Screen)
        → t ≤ now
        → IsWatched half t v s
        → IsWatched half now (handle half token now e v) (screen half now e s)
    unfolding handle
    handle-IsWatched t now (visibility_change b) v s later h =
        subst
          (λ f.
            IsWatched half now (update half now (record v { visible = b }))
              (watch half now b f s.since))
          h.same_fraction
          (update-IsWatched now (record v { visible = b }) s.since
            (AtMost-mono s.since t now later h.past) h.timed)
    handle-IsWatched t now (intersection r) v s later h =
        subst
          (λ b.
            IsWatched half now (update half now (record v { visible_fraction = ratio r }))
              (watch half now b (ratio r) s.since))
          h.same_visible
          (update-IsWatched now (record v { visible_fraction = ratio r }) s.since
            (AtMost-mono s.since t now later h.past) h.timed)
    handle-IsWatched t now impression_timeout v s later h =
        let (p, q, e) = impression_due-untimed token v in
        if-both (λ w. IsWatched half now w s) (timer_is_due now v.impression_timer)
          (impression_due token v) v (untimed t now v (impression_due token v) s later p q e h)
          (IsWatched-SameView t now v v s later
            (record { visible = refl; fraction = refl; timer = refl; same_qualified = refl }) h)
    handle-IsWatched t now dwell_interval v s later h =
        if-both (λ w. IsWatched half now w s) v.dwell_timer (report_dwell now v) v
          (IsWatched-SameView t now v (report_dwell now v) s later (report_dwell-SameView now v) h)
          (IsWatched-SameView t now v v s later
            (record { visible = refl; fraction = refl; timer = refl; same_qualified = refl }) h)
    handle-IsWatched t now clean_up v s later h =
        let same = stop_dwell-SameView now (stop_impression_timer v) in
        untimed t now v (stop_dwell now (stop_impression_timer v)) s later same.visible
          same.fraction same.timer h
    handle-IsWatched t now (elsewhere u) v s later h =
        IsWatched-SameView t now v (record v { observed_tokens = u ∷ v.observed_tokens }) s later
          (record { visible = refl; fraction = refl; timer = refl; same_qualified = refl }) h

    abbrev last_time : ℕ → List (ℕ × ViewEvent) → ℕ
    last_time t [] = t
    last_time t ((now, e) ∷ more) = last_time now more

    handle_all-IsWatched :
        (t : ℕ) (trace : List (ℕ × ViewEvent)) (v : View) (s : Screen)
        → Later t trace
        → IsWatched half t v s
        → IsWatched half
            (last_time t trace)
            (handle_all half token trace v)
            (screen_all half trace s)
    handle_all-IsWatched t [] v s l h = h
    handle_all-IsWatched t ((now, e) ∷ more) v s (later, l) h =
        handle_all-IsWatched now more (handle half token now e v) (screen half now e s) l
          (handle-IsWatched t now e v s later h)

    start_impression_timer-qualified :
        (now : ℕ) (v : View) → (start_impression_timer now v).qualified ≡ v.qualified
    unfolding start_impression_timer
    start_impression_timer-qualified now v = ground arith

    update-qualified : (now : ℕ) (v : View) → (update half now v).qualified ≡ v.qualified
    unfolding update
    update-qualified now v = elim (Bool-cases (is_in_view half v)) [
      | inl e ↦
          rw (e, update)
            ((start_dwell-SameView now (start_impression_timer now v)).same_qualified
              ∙ start_impression_timer-qualified now v)
      | inr e ↦ rw (e, update) (stop_dwell-SameView now (stop_impression_timer v)).same_qualified
    ]

    -- What qualifies a view is the timer, and it has run for its time.
    qualified_by :
        (now : ℕ) (e : ViewEvent) (v : View)
        → v.qualified ≡ false
        → (handle half token now e v).qualified ≡ true
        → timer_is_due now v.impression_timer ≡ true
    unfolding handle
    qualified_by now (visibility_change b) v p q =
        cc (sym p ∙ sym (update-qualified now (record v { visible = b })) ∙ q)
    qualified_by now (intersection r) v p q =
        cc (sym p ∙ sym (update-qualified now (record v { visible_fraction = ratio r })) ∙ q)
    qualified_by now impression_timeout v p q = ground arith
    qualified_by now dwell_interval v p q = cc (
        sym p
        ∙ sym (
            if-both (λ w. w.qualified ≡ v.qualified) v.dwell_timer (report_dwell now v) v
              (report_dwell-SameView now v).same_qualified refl)
        ∙ q)
    qualified_by now clean_up v p q =
        cc (sym p ∙ sym (stop_dwell-SameView now (stop_impression_timer v)).same_qualified ∙ q)
    qualified_by now (elsewhere t) v p q = cc

    due_since :
        (since timer : Option ℕ) (now : ℕ)
        → Precedes since timer
        → timer_is_due now timer ≡ true
        → (s : ℕ) × (since ≡ some s) × (s + min_visible_duration_ms * microseconds ≤ now)
    due_since since none now h k = cc
    due_since none (some u) now h k = absurd h
    due_since (some s) (some u) now h k = (s, refl, omega (arith, leb→le (u + 1000000) now k))

    -- A post counts as seen only when the document has been visible, and half of the post in the
    -- viewport, for a second without a break.
    pub qualified-in_view :
        (observed_tokens : List String) (visible : Bool) (trace : List (ℕ × ViewEvent)) (now : ℕ)
        (e : ViewEvent)
        → Later 0 trace
        → (handle_all half token trace (new_view observed_tokens visible)).qualified ≡ false
        → (handle half token now e
            (handle_all half token trace (new_view observed_tokens visible))).qualified
          ≡ true
        → (since : ℕ) × (in_view_since half visible trace ≡ some since)
          × (since + min_visible_duration_ms * microseconds ≤ now)
    qualified-in_view observed_tokens visible trace now e later before after =
        let start = new_view observed_tokens visible in
        let nothing_yet : Screen = record { visible = visible; fraction = 0; since = none } in
        let v = handle_all half token trace start in
        let watched =
          handle_all-IsWatched 0 trace start nothing_yet later
            (record { same_visible = refl; same_fraction = refl; past = tt; timed = tt }) in
        due_since (in_view_since half visible trace) v.impression_timer now watched.timed
          (qualified_by now e v before after)
