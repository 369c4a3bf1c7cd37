-- ===== src/BqSink/Canonical/Reconcile/Conflicts.antt =====
-- Which ids `current_conflicts` of bq-sink/src/canonicalizer.ts holds.
use escld.Prelude.{
  suc, String, ◌≡◌, refl, sym, ap, ◌∙◌, subst, true, false, ◌&&◌, ◌||◌, List, [], ◌∷◌, map, arith,
  ltb, length,
}
use escld.BqSink.Sql.{listed, with_key, distinct, sorted, insert_text}
use escld.BqSink.Sql.Lists.{
  Unique, listed-distinct, distinct-Unique, distinct-AllSame, AllSame-distinct, listed-made,
  Unique-where_true,
}
use escld.BqSink.Sql.Held.{held, held-values}
use escld.BqSink.Canonical.Rows.{Event}
use escld.BqSink.Canonical.Reconcile.{
  CanonicalEvent, id_of, current_id, compared, variant_of, type_of, conflict_of, is_conflict,
  current_conflicts,
}

length-insert_text : (x : String) (ys : List String) → length (insert_text x ys) ≡ suc (length ys)
unfolding insert_text
length-insert_text x [] = refl
length-insert_text x (y ∷ ys) = ground (arith, length-insert_text x ys)

length-sorted : (xs : List String) → length (sorted xs) ≡ length xs
unfolding sorted
length-sorted [] = refl
length-sorted (x ∷ xs) = length-insert_text x (sorted xs) ∙ ap suc (length-sorted xs)

current_id-conflict_of : (rows : List Event) (k : String) → current_id (conflict_of rows k) ≡ k
unfolding conflict_of
current_id-conflict_of rows k = refl

made-ids : (rows : List Event) (ks : List String) → map current_id (map (conflict_of rows) ks) ≡ ks
made-ids rows [] = refl
made-ids rows (k ∷ ks) = rw (current_id-conflict_of rows k, made-ids rows ks) refl

is_conflict-conflict_of :
    (rows : List Event) (k : String)
    → is_conflict (conflict_of rows k) ≡ (
        ltb 1 (length (distinct (map variant_of (with_key id_of k rows))))
        || ltb 1 (length (distinct (map type_of (with_key id_of k rows)))))
unfolding conflict_of
is_conflict-conflict_of rows k =
    rw (length-sorted (distinct (map type_of (with_key id_of k rows)))) refl

-- The rows of an id hold one value.
abbrev pub Agree : (Event → String) → String → List Event → Type 0
Agree value k rows =
    (v w : String) → held id_of value v k rows ≡ true → held id_of value w k rows ≡ true → v ≡ w

module _ (candidates : List Event) (canonical : List CanonicalEvent) where
  abbrev rows : List Event
  rows = compared candidates canonical

  listed-current :
      (k : String)
      → listed k (map current_id (current_conflicts candidates canonical))
        ≡ (listed k (map id_of rows) && is_conflict (conflict_of rows k))
  unfolding current_conflicts
  listed-current k = rw (← listed-distinct k (map id_of rows)) (
      listed-made current_id (conflict_of rows) is_conflict (current_id-conflict_of rows) k
        (distinct (map id_of rows)))

  pub current_conflicts-Unique : Unique (map current_id (current_conflicts candidates canonical))
  unfolding current_conflicts
  current_conflicts-Unique =
      Unique-where_true current_id is_conflict (map (conflict_of rows) (distinct (map id_of rows)))
        (subst Unique (sym (made-ids rows (distinct (map id_of rows))))
          (distinct-Unique (map id_of rows)))

  pub listed_of_current :
      (k : String)
      → listed k (map current_id (current_conflicts candidates canonical)) ≡ true
      → listed k (map id_of rows) ≡ true
  listed_of_current k h = ground (arith, listed-current k)

  Agree-of_short :
      (value : Event → String) (k : String)
      → ltb 1 (length (distinct (map value (with_key id_of k rows)))) ≡ false
      → Agree value k rows
  Agree-of_short value k h v w p q =
      distinct-AllSame (map value (with_key id_of k rows)) h v w
        (sym (held-values id_of value v k rows) ∙ p) (sym (held-values id_of value w k rows) ∙ q)

  short_of_Agree :
      (value : Event → String) (k : String)
      → Agree value k rows
      → ltb 1 (length (distinct (map value (with_key id_of k rows)))) ≡ false
  short_of_Agree value k h =
      AllSame-distinct (map value (with_key id_of k rows)) λ v w p q.
        h v w (held-values id_of value v k rows ∙ p) (held-values id_of value w k rows ∙ q)

  -- An id that is compared is in conflict exactly where its rows differ in a type or a payload.
  pub Agree-of_current :
      (k : String)
      → listed k (map id_of rows) ≡ true
      → listed k (map current_id (current_conflicts candidates canonical)) ≡ false
      → Agree variant_of k rows × Agree type_of k rows
  Agree-of_current k h n =
      let e = is_conflict-conflict_of rows k in
      (
        Agree-of_short variant_of k (ground (arith, listed-current k)),
        Agree-of_short type_of k (ground (arith, listed-current k)),
      )

  pub current_of_Agree :
      (k : String)
      → Agree variant_of k rows
      → Agree type_of k rows
      → listed k (map current_id (current_conflicts candidates canonical)) ≡ false
  current_of_Agree k a b = ground (
    arith,
    listed-current k,
    is_conflict-conflict_of rows k,
    short_of_Agree variant_of k a,
    short_of_Agree type_of k b,
  )
