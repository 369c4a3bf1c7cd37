-- ===== src/BqSink/Canonical/Outcomes/Attribution.antt =====
-- To which impression an action is attributed: bq-sink/src/canonicalizer.ts.
use escld.Prelude.{
  ℕ, max, String, ◌≡◌, refl, ◌∙◌, inl, inr, Bool, true, ◌&&◌, ◌||◌, List, [], ◌∷◌, ◌++◌, map, arith,
  ◌==◌, if◌then◌else◌, Bool-cases, any, All, All-append,
}
use escld.BqSink.Sql.{listed, where_true}
use escld.BqSink.Sql.Lists.{Unique}
use escld.BqSink.Sql.Ranks.{first_ranked-Unique, listed-first_ranked}
use escld.BqSink.Sql.Best.{best, best-first_ranked, All-first_ranked}
use escld.BqSink.Canonical.Rows.{Event}
use escld.BqSink.Canonical.Feed.{FeedImpression}
use escld.BqSink.Canonical.Views.{join_events}
use escld.BqSink.Canonical.Outcomes.{attributed, pair_event_id, shown_later}

abbrev pub shown_at : FeedImpression × Event → ℕ
shown_at (i, e) = i.impression_at

-- The ids of the events that an impression of the list may have led to, and the time of the last
-- impression that may have led to the event of an id.
abbrev pub is_matched :
    (FeedImpression → Event → Bool) → List FeedImpression → List Event → String → Bool
is_matched on impressions events id =
    any (λ i. any (λ e. on i e && e.event_id == id) events) impressions

abbrev pub shown_for : (FeedImpression → Event → Bool) → FeedImpression → List Event → String → ℕ
shown_for on i [] id = 0
shown_for on i (e ∷ es) id =
    if on i e && e.event_id == id
    then max i.impression_at (shown_for on i es id)
    else shown_for on i es id

abbrev pub last_shown :
    (FeedImpression → Event → Bool) → List FeedImpression → List Event → String → ℕ
last_shown on [] events id = 0
last_shown on (i ∷ is) events id = max (shown_for on i events id) (last_shown on is events id)

abbrev pub IsDue : (FeedImpression → Event → Bool) → FeedImpression × Event → Type 0
IsDue on (i, e) = on i e ≡ true

pub record IsAttribution (on : FeedImpression → Event → Bool) (impressions : List FeedImpression)
    (events : List Event) (pairs : List (FeedImpression × Event)) : Type 0 where
  pub due : All (IsDue on) pairs
  pub once : Unique (map pair_event_id pairs)
  pub complete :
      (id : String) → listed id (map pair_event_id pairs) ≡ is_matched on impressions events id
  pub latest :
      (id : String) → best pair_event_id shown_at id pairs ≡ last_shown on impressions events id

module _ (on : FeedImpression → Event → Bool) where
  IsDue-pairs :
      (i : FeedImpression) (events : List Event)
      → All (IsDue on) (map (λ e. (i, e)) (where_true (on i) events))
  IsDue-pairs i [] = tt
  IsDue-pairs i (e ∷ es) = elim (Bool-cases (on i e)) [
    | inl h ↦ rw h (h, IsDue-pairs i es)
    | inr h ↦ rw h (IsDue-pairs i es)
  ]

  IsDue-join_events :
      (is : List FeedImpression) (events : List Event) → All (IsDue on) (join_events on is events)
  unfolding join_events
  IsDue-join_events [] events = tt
  IsDue-join_events (i ∷ is) events =
      All-append (IsDue on) (map (λ e. (i, e)) (where_true (on i) events))
        (join_events on is events) (IsDue-pairs i events) (IsDue-join_events is events)

  listed_pairs :
      (id : String) (i : FeedImpression) (events : List Event)
      (rest : List (FeedImpression × Event))
      → listed id (map pair_event_id (map (λ e. (i, e)) (where_true (on i) events) ++ rest))
        ≡ (any (λ e. on i e && e.event_id == id) events || listed id (map pair_event_id rest))
  listed_pairs id i [] rest = refl
  listed_pairs id i (e ∷ es) rest = ground (arith, listed_pairs id i es rest)

  listed_join :
      (id : String) (is : List FeedImpression) (events : List Event)
      → listed id (map pair_event_id (join_events on is events)) ≡ is_matched on is events id
  unfolding join_events
  listed_join id [] events = refl
  listed_join id (i ∷ is) events =
      rw (listed_pairs id i events (join_events on is events), listed_join id is events) refl

  best_pairs :
      (id : String) (i : FeedImpression) (events : List Event)
      (rest : List (FeedImpression × Event))
      → best pair_event_id shown_at id (map (λ e. (i, e)) (where_true (on i) events) ++ rest)
        ≡ max (shown_for on i events id) (best pair_event_id shown_at id rest)
  best_pairs id i [] rest = omega arith
  best_pairs id i (e ∷ es) rest = ground (arith, best_pairs id i es rest)

  best_join :
      (id : String) (is : List FeedImpression) (events : List Event)
      → best pair_event_id shown_at id (join_events on is events) ≡ last_shown on is events id
  unfolding join_events
  best_join id [] events = refl
  best_join id (i ∷ is) events =
      rw (best_pairs id i events (join_events on is events), best_join id is events) refl

  -- An event that some impression may have led to is attributed once, to the last such impression.
  pub attributed-IsAttribution :
      (impressions : List FeedImpression) (events : List Event)
      → IsAttribution on impressions events (attributed on impressions events)
  unfolding attributed
  attributed-IsAttribution impressions events =
      let pairs = join_events on impressions events in
      record {
        due =
            All-first_ranked (IsDue on) pair_event_id shown_later pairs
              (IsDue-join_events impressions events);
        once = first_ranked-Unique pair_event_id shown_later pairs;
        complete = λ id.
            listed-first_ranked pair_event_id shown_later id pairs
            ∙ listed_join id impressions events;
        latest = λ id.
            best-first_ranked pair_event_id shown_at id pairs ∙ best_join id impressions events;
      }
