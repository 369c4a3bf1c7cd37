-- ===== src/BqSink/Messages/Ids.antt =====
-- Quarantine ids of bq-sink/src/message-handler.ts, and the two tables that map event types:
-- `TABLE_BY_EVENT_TYPE` of bq-sink/src/bigquery.ts and `RAW_TABLES` of bq-sink/src/canonicalizer.ts.
use escld.Prelude.{
  ℕ, String, ◌≡◌, refl, sym, ap, ◌∙◌, subst, ◌≢◌, ◌↔◌, inl, inr, Bool, true, false, ◌&&◌, ◌||◌,
  Option, none, some, List, [], ◌∷◌, arith, ◌==◌, eq_iff, if◌then◌else◌, and_iff, Bool-cases, All,
}
use Prim.Native.String.{◌++◌ as append_text}
use text.Mathlib.TextLemmas
use text.Mathlib.TextLemmas.{append_cancel_left}
use escld.Js.Json.{Json, Engine, prop, as_string}
use escld.Js.Text.{decimal}
use escld.Js.Text.Decimal.{NoDash, NoDash-decimal, decimal-injective, last_dash}
use escld.BqSink.Envelope.{is_event_envelope}
use escld.BqSink.Messages.Parse.{
  table, inherited, table_by_event_type, object_prototype, contains, own_entry, table_or_inherited,
  table_for_event_type, KafkaMessage, InsertRow, event, Origin, event_row, quarantine_id,
  text_or_empty, parse_message, route, check,
}

regroup :
    (a b c d : String)
    → append_text a (append_text b (append_text c d))
      ≡ append_text (append_text a (append_text b c)) d
regroup a b c d = sym (
    TextLemmas.append_assoc a (append_text b c) d
    ∙ ap (append_text a) (TextLemmas.append_assoc b c d))

-- Two records with the same quarantine id have one topic, partition and offset: the id that
-- BigQuery deduplicates by never merges two messages. Kafka's offsets hold no dash; a topic may.
pub quarantine_id-injective :
    (a b : Origin) → NoDash a.offset → NoDash b.offset → quarantine_id a ≡ quarantine_id b → a ≡ b
unfolding quarantine_id
quarantine_id-injective a b ha hb e =
    let rest = append_cancel_left "quarantine-" _ _ e in
    let (front, offsets) =
      last_dash (append_text a.topic (append_text "-" (decimal a.partition)))
        (append_text b.topic (append_text "-" (decimal b.partition))) a.offset b.offset ha hb
        (sym (regroup a.topic "-" (decimal a.partition) (append_text "-" a.offset))
          ∙ rest
          ∙ regroup b.topic "-" (decimal b.partition) (append_text "-" b.offset)) in
    let (topics, partitions) =
      last_dash a.topic b.topic (decimal a.partition) (decimal b.partition)
        (NoDash-decimal a.partition) (NoDash-decimal b.partition) front in
    let same : a.partition ≡ b.partition = decimal-injective a.partition b.partition partitions in
    λ i. record { topic = topics i; partition = same i; offset = offsets i }

-- `RAW_TABLES`.
abbrev pub raw_tables : List (String × String)
raw_tables =
    ("raw_post_created", "post.created")
    ∷ ("raw_post_liked", "post.liked")
    ∷ ("raw_post_unliked", "post.unliked")
    ∷ ("raw_post_commented", "post.commented")
    ∷ ("raw_post_comment_deleted", "post.comment_deleted")
    ∷ ("raw_post_hidden", "post.hidden")
    ∷ ("raw_post_unhidden", "post.unhidden")
    ∷ ("raw_user_followed", "user.followed")
    ∷ ("raw_user_unfollowed", "user.unfollowed")
    ∷ ("raw_live_started", "live.started")
    ∷ ("raw_live_ended", "live.ended")
    ∷ ("raw_post_impression", "post.impression")
    ∷ ("raw_post_dwell", "post.dwell")
    ∷ ("raw_feed_served", "feed.served")
    ∷ ("raw_media_progress", "media.progress")
    ∷ []

-- The canonicalizer reads `t` as the table of the events of type `ty`.
abbrev pub reads : List (String × String) → String → String → Bool
reads [] t ty = false
reads ((u, uy) ∷ rest) t ty = (u == t && uy == ty) || reads rest t ty

own_entry-All :
    (P : String → String → Type 0) (entries : List (String × String)) {key value : String}
    → All (λ e. P e.0 e.1) entries
    → own_entry entries key ≡ some value
    → P key value
own_entry-All P [] h e = cc
own_entry-All P ((k, v) ∷ rest) {key} {value} (p, h) e = elim (Bool-cases (k == key)) [
  | inl same ↦
      subst (λ k'. P k' value) ((eq_iff k key).0 same) (subst (λ v'. P k v') (ground arith) p)
  | inr other ↦ own_entry-All P rest h (ground arith)
]

reads-All :
    (P : String → String → Type 0) (entries : List (String × String)) (t ty : String)
    → All (λ e. P e.0 e.1) entries
    → reads entries t ty ≡ true
    → P t ty
reads-All P [] t ty h e = cc
reads-All P ((u, uy) ∷ rest) t ty (p, h) e = elim (Bool-cases (u == t && uy == ty)) [
  | inl same ↦
      let (a, b) = (and_iff (u == t) (uy == ty)).0 same in
      subst (λ u'. P u' ty) ((eq_iff u t).0 a) (subst (λ y. P u y) ((eq_iff uy ty).0 b) p)
  | inr other ↦ reads-All P rest t ty h (ground arith)
]

not_table :
    (b : Bool) (key t : String) → (if b then some (inherited key) else none) ≢ some (table t)
not_table true key t = cc
not_table false key t = cc

own_of_table :
    (o : Option String) (key : String) {t : String}
    → table_or_inherited o key ≡ some (table t)
    → o ≡ some t
own_of_table none key {t} e = absurd (not_table (contains object_prototype key) key t e)
own_of_table (some u) key e = cc

-- Events land in a table exactly where the canonicalizer later reads that table under their type.
pub table_for_event_type-reads :
    (event_type t : String)
    → (table_for_event_type event_type ≡ some (table t)) ↔ (reads raw_tables t event_type ≡ true)
unfolding table_for_event_type
table_for_event_type-reads event_type t = (
  λ h.
      own_entry-All (λ ty u. reads raw_tables u ty ≡ true) table_by_event_type
        (
          refl,
          (
            refl,
            (
              refl,
              (
                refl,
                (
                  refl,
                  (
                    refl,
                    (refl, (refl, (refl, (refl, (refl, (refl, (refl, (refl, (refl, tt))))))))),
                  ),
                ),
              ),
            ),
          ),
        )
        (own_of_table (own_entry table_by_event_type event_type) event_type h),
  λ h.
      reads-All (λ u ty. table_for_event_type ty ≡ some (table u)) raw_tables t event_type
        (
          refl,
          (
            refl,
            (
              refl,
              (
                refl,
                (
                  refl,
                  (
                    refl,
                    (refl, (refl, (refl, (refl, (refl, (refl, (refl, (refl, (refl, tt))))))))),
                  ),
                ),
              ),
            ),
          ),
        )
        h,
)

contains-All :
    (P : String → Type 0) (names : List String) (key : String)
    → All P names
    → contains names key ≡ true
    → P key
contains-All P [] key h e = cc
contains-All P (name ∷ names) key (p, h) e = elim (Bool-cases (name == key)) [
  | inl same ↦ subst P ((eq_iff name key).0 same) p
  | inr other ↦ contains-All P names key h (ground arith)
]

inherited_for_event_type :
    (event_type : String)
    → contains object_prototype event_type ≡ true
    → table_for_event_type event_type ≡ some (inherited event_type)
unfolding table_for_event_type
inherited_for_event_type event_type h =
    contains-All (λ ty. table_for_event_type ty ≡ some (inherited ty)) object_prototype event_type
      (
        refl,
        (refl, (refl, (refl, (refl, (refl, (refl, (refl, (refl, (refl, (refl, (refl, tt))))))))))),
      )
      h

-- A valid envelope whose event type is the name of a member of `Object.prototype`, such as
-- "constructor", is not quarantined as unmapped: it goes to the warehouse as an event, with that
-- member in the place of a table name.
pub parse_message-inherited :
    (engine : Engine) (topic : String) (partition : ℕ) (now : String) (message : KafkaMessage)
    (raw : Json)
    → engine.json_parse (text_or_empty message.value) ≡ some raw
    → is_event_envelope engine raw ≡ true
    → contains object_prototype (as_string (prop "eventType" raw)) ≡ true
    → (r : InsertRow) × (parse_message engine table_for_event_type topic partition now message
        ≡ event message.offset
            (inherited (as_string (prop "eventType" raw)))
            (as_string (prop "eventType" raw))
            r
            (text_or_empty message.value))
unfolding parse_message route check
parse_message-inherited engine topic partition now message raw p v h = (
  record {
    insert_id = as_string (prop "eventId" raw);
    row =
        event_row (record { topic = topic; partition = partition; offset = message.offset })
          message.correlation_header raw;
  },
  rw (p, v, inherited_for_event_type _ h) refl,
)
