-- ===== src/BqSink/Canonical/Experiments.antt =====
-- experiment_daily of bq-sink/src/canonicalizer.ts.
use escld.Prelude.{ℕ, String, Bool, ◌&&◌, List, [], ◌∷◌, ◌++◌, map, ◌==◌, eqb, length, any, Result}
use escld.Js.Int.{ℤ}
use escld.BqSink.Sql.{where_true, or_value, distinct_by, merge}
use escld.BqSink.Canonical.Feed.{FeedRequest}
use escld.BqSink.Canonical.Engagement.{count_if, day_of}
use escld.BqSink.Canonical.Outcomes.{ImpressionOutcome}
use escld.BqSink.Canonical.Daily.{sum, recent}

-- The key of a group: the experiment, its variant, the day.
abbrev pub Arm : Type 0
Arm = String × String × ℕ

abbrev pub same_arm : Arm → Arm → Bool
same_arm (x, v, d) (y, w, c) = x == y && v == w && eqb d c

unfoldable pub arms : List Arm → List Arm
unfolding distinct_by
arms = distinct_by same_arm

pub record ExperimentDaily : Type 0 where
  pub arm : Arm
  pub impressions : ℕ
  pub meaningful_count : ℕ
  pub like_count : ℕ
  pub comment_count : ℕ
  pub hide_count : ℕ
  pub watch_time_ms : ℤ
  pub provisional : Bool
  pub materialized_at : ℕ

abbrev pub arm_of : FeedRequest → ImpressionOutcome → Arm
arm_of r o = (
  or_value r.experiment_id "unassigned",
  or_value r.experiment_variant "unassigned",
  day_of o.impression_at,
)

-- The JOIN of the outcomes with the requests that served them.
unfoldable pub by_arm : List FeedRequest → List ImpressionOutcome → List (Arm × ImpressionOutcome)
by_arm requests [] = []
by_arm requests (o ∷ os) =
    map (λ r. (arm_of r o, o))
      (where_true (λ r. r.request_id == o.request_id && r.actor_id == o.actor_id) requests)
    ++ by_arm requests os

abbrev pub arm_group : Arm → List (Arm × ImpressionOutcome) → List ImpressionOutcome
arm_group arm rows = map (λ r. r.1) (where_true (λ r. same_arm r.0 arm) rows)

unfoldable pub experiment_row : ℕ → List (Arm × ImpressionOutcome) → Arm → ExperimentDaily
unfolding sum
experiment_row now rows arm =
    let os = arm_group arm rows in
    record {
      arm = arm;
      impressions = length os;
      meaningful_count = count_if (λ o. o.meaningful) os;
      like_count = count_if (λ o. o.liked) os;
      comment_count = count_if (λ o. o.commented) os;
      hide_count = count_if (λ o. o.hidden) os;
      watch_time_ms = sum (map (λ o. o.watch_time_ms) os);
      provisional = any (λ o. o.provisional) os;
      materialized_at = now;
    }

abbrev pub row_arm : ExperimentDaily → Arm
row_arm d = d.arm

unfoldable pub merge_experiment_daily :
    (now days : ℕ)
    → List ImpressionOutcome
    → List FeedRequest
    → List ExperimentDaily
    → Result (List ExperimentDaily)
unfolding by_arm arms experiment_row
merge_experiment_daily now days outcomes requests =
    let rows = by_arm requests (recent now days outcomes) in
    merge (λ s t. same_arm (row_arm t) (row_arm s)) (λ s t. record s { arm = t.arm }) (λ s. s)
      (map (experiment_row now rows) (arms (map (λ r. r.0) rows)))
