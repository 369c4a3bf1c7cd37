-- ===== src/Frontend/Impressions/Tests.antt =====
-- Runs of frontend/src/hooks/use-qualified-impression.ts.
use escld.Prelude.{ℕ, ◌+◌, ◌≤◌, ◌≡◌, refl, true, false, some, List, [], ◌∷◌, ◌++◌, arith}
use escld.Frontend.Impressions.{
  impression, dwell, new_view, accumulate_dwell, report_accumulated, report_dwell, stop_dwell,
  start_dwell, start_impression_timer, impression_due, update, ViewEvent, visibility_change,
  intersection, impression_timeout, dwell_interval, handle, handle_all,
}
use escld.Frontend.Impressions.Order.{IsOrdered, emitted-IsOrdered}
use escld.Frontend.Impressions.InView.{in_view_since, qualified-in_view}

-- The post comes into view, goes and comes again; a second later it counts, and then its dwell time.
abbrev coming : List (ℕ × ViewEvent)
coming =
    (100, intersection (some 6))
    ∷ (900100, intersection (some 2))
    ∷ (1000000, impression_timeout)
    ∷ (2000000, intersection (some 9))
    ∷ []

abbrev staying : List (ℕ × ViewEvent)
staying =
    (3000000, impression_timeout)
    ∷ (7000000, dwell_interval)
    ∷ (7000000, dwell_interval)
    ∷ (8000400, visibility_change false)
    ∷ []

run :
    (handle_all 5 "token" (coming ++ staying) (new_view [] true)).emitted
    ≡ dwell 6900 2 ∷ dwell 5900 1 ∷ impression 1000 9 ∷ []
unfolding handle update accumulate_dwell report_dwell report_accumulated stop_dwell start_dwell
    start_impression_timer impression_due
run = refl

emitted-IsOrdered_example :
    IsOrdered (handle_all 5 "token" (coming ++ staying) (new_view [] true)).emitted
emitted-IsOrdered_example = emitted-IsOrdered 5 "token" (coming ++ staying) [] true

qualified-in_view_example :
    (since : ℕ) × (in_view_since 5 true coming ≡ some since) × (since + 1000000 ≤ 3000000)
unfolding handle update accumulate_dwell report_dwell report_accumulated stop_dwell start_dwell
    start_impression_timer impression_due
qualified-in_view_example =
    qualified-in_view 5 "token" [] true coming 3000000 impression_timeout (omega arith) refl refl
