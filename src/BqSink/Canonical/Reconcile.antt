-- ===== src/BqSink/Canonical/Reconcile.antt =====
-- Conflicts, winners and the merge into canonical_events: the first half of
-- bq-sink/src/canonicalizer.ts.
pub mod Conflicts
pub mod Merged
pub mod Agreement
pub mod Again
use escld.Prelude.{
  ℕ, String, Bool, not, ◌&&◌, ◌||◌, List, [], ◌∷◌, ◌++◌, map, ltb, length, Result, ok, err,
}
use escld.BqSink.Sql.{
  listed, where_true, with_key, distinct, sorted, least, greatest, or_value, first_ranked,
  merge_missing, merge,
}
use escld.BqSink.Sql.Ranks.{same_key}
use escld.BqSink.Canonical.Rows.{Event, Functions, event_before}

-- A row of `canonical_events`.
pub record CanonicalEvent : Type 0 where
  pub event : Event
  pub canonicalized_at : ℕ

abbrev pub id_of : Event → String
id_of e = e.event_id

abbrev pub canonical_id : CanonicalEvent → String
canonical_id c = c.event.event_id

-- A row of `current_conflicts`, and with `detectedAt` of `event_conflicts`.
pub record Conflict : Type 0 where
  pub event_id : String
  pub first_seen_at : ℕ
  pub last_seen_at : ℕ
  pub payload_variants : ℕ
  pub event_types : List String

pub record EventConflict : Type 0 where
  pub conflict : Conflict
  pub detected_at : ℕ

abbrev pub current_id : Conflict → String
current_id c = c.event_id

abbrev pub conflict_id : EventConflict → String
conflict_id c = c.conflict.event_id

-- The tables that this half changes.
pub record Ledger : Type 0 where
  pub canonical_events : List CanonicalEvent
  pub event_conflicts : List EventConflict

abbrev pub event_of : CanonicalEvent → Event
event_of c = c.event

-- `compared`: the candidates, and the canonical events with the id of one.
unfoldable pub compared : List Event → List CanonicalEvent → List Event
compared candidates canonical =
    candidates
    ++ where_true (λ e. listed e.event_id (map id_of candidates)) (map event_of canonical)

-- `IFNULL(TO_HEX(payloadHash), 'missing')`.
abbrev pub variant_of : Event → String
variant_of e = or_value e.payload_hash "missing"

abbrev pub type_of : Event → String
type_of e = e.event_type

-- `MIN(ingestedAt)` and `MAX(ingestedAt)` over a group.
abbrev pub first_seen : List Event → ℕ
first_seen [] = 0
first_seen (e ∷ es) = least e.ingested_at (map (λ x. x.ingested_at) es)

abbrev pub last_seen : List Event → ℕ
last_seen [] = 0
last_seen (e ∷ es) = greatest e.ingested_at (map (λ x. x.ingested_at) es)

unfoldable pub conflict_of : List Event → String → Conflict
conflict_of rows id =
    let group = with_key id_of id rows in
    record {
      event_id = id;
      first_seen_at = first_seen group;
      last_seen_at = last_seen group;
      payload_variants = length (distinct (map variant_of group));
      event_types = sorted (distinct (map type_of group));
    }

-- HAVING payloadVariants > 1 OR ARRAY_LENGTH(eventTypes) > 1.
abbrev pub is_conflict : Conflict → Bool
is_conflict c = ltb 1 c.payload_variants || ltb 1 (length c.event_types)

unfoldable pub current_conflicts : List Event → List CanonicalEvent → List Conflict
unfolding conflict_of compared
current_conflicts candidates canonical =
    let rows = compared candidates canonical in
    where_true is_conflict (map (conflict_of rows) (distinct (map id_of rows)))

-- UPDATE SET leaves `firstSeenAt` as it is.
abbrev pub update_conflict : ℕ → Conflict → EventConflict → EventConflict
update_conflict now source target = record {
  conflict = record target.conflict {
    last_seen_at = source.last_seen_at;
    payload_variants = source.payload_variants;
    event_types = source.event_types;
  };
  detected_at = now;
}

abbrev pub insert_conflict : ℕ → Conflict → EventConflict
insert_conflict now source = record { conflict = source; detected_at = now }

unfoldable pub merge_conflicts :
    ℕ → List Conflict → List EventConflict → Result (List EventConflict)
merge_conflicts now =
    merge (same_key current_id conflict_id) (update_conflict now) (insert_conflict now)

-- DELETE FROM canonical_events WHERE eventId IN (SELECT eventId FROM current_conflicts).
unfoldable pub delete_conflicting : List Conflict → List CanonicalEvent → List CanonicalEvent
delete_conflicting conflicts =
    where_true (λ c. not (listed (canonical_id c) (map current_id conflicts)))

-- `winners`: of each id, the first candidate, where the id is in no conflict.
unfoldable pub winners : Functions → List Event → List Conflict → List EventConflict → List Event
unfolding first_ranked event_before
winners bq candidates current known = first_ranked id_of (event_before bq) (
    where_true
      (λ e.
        not (listed (id_of e) (map current_id current))
        && not (listed (id_of e) (map conflict_id known)))
      candidates)

abbrev pub insert_winner : ℕ → Event → CanonicalEvent
insert_winner now e = record { event = e; canonicalized_at = now }

unfoldable pub merge_winners : ℕ → List Event → List CanonicalEvent → List CanonicalEvent
merge_winners now = merge_missing (same_key id_of canonical_id) (insert_winner now)

-- The statements from `current_conflicts` to the merge into `canonical_events`; `conflicts_at` and
-- `winners_at` are the times at which the two merges start. Where a merge fails the script stops.
unfoldable pub reconcile :
    Functions → (conflicts_at winners_at : ℕ) → List Event → Ledger → Result Ledger
reconcile bq conflicts_at winners_at candidates ledger =
    let current = current_conflicts candidates ledger.canonical_events in
    elim (merge_conflicts conflicts_at current ledger.event_conflicts) [
      | err ↦ err
      | ok known ↦ ok (record {
        canonical_events =
            merge_winners winners_at (winners bq candidates current known)
              (delete_conflicting current ledger.canonical_events);
        event_conflicts = known;
      })
    ]
