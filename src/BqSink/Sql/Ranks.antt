-- ===== src/BqSink/Sql/Ranks.antt =====
-- Rows of rank one, and merges by a key: bq-sink/src/canonicalizer.ts.
use escld.Prelude.{
  String, ◌≡◌, refl, sym, ap, subst, inl, inr, Bool, true, not, ◌&&◌, ◌||◌, List, [], ◌∷◌, ◌++◌,
  map, append-nil, arith, ◌==◌, eq_iff, if◌then◌else◌, Bool-cases, any,
}
use escld.BqSink.Sql.{listed, where_true, challenge, first_ranked, merge_missing}
use mathlib.Core.List.{map-append}
use escld.BqSink.Sql.Held.{held, held-cons}
use escld.BqSink.Sql.Lists.{
  Unique, listed-append, listed-where_true, Unique-where_true, Unique-append,
}

module _ {ℓ} {A : Type ℓ} (key : A → String) (before : A → A → Bool) where
  listed-challenge :
      (k : String) (r : A) (ws : List A)
      → listed k (map key (challenge key before r ws)) ≡ (key r == k || listed k (map key ws))
  unfolding challenge
  listed-challenge k r [] = refl
  listed-challenge k r (w ∷ ws) =
      ground
        (arith, listed-challenge k r ws, eq_iff (key w) (key r), eq_iff (key r) k, eq_iff (key w) k)

  picked : (r w : A) → key w == key r ≡ true → key (if before w r then w else r) ≡ key w
  picked r w e = ground (arith, eq_iff (key w) (key r))

  Unique-challenge :
      (r : A) (ws : List A) → Unique (map key ws) → Unique (map key (challenge key before r ws))
  unfolding challenge
  Unique-challenge r [] u = (refl, tt)
  Unique-challenge r (w ∷ ws) (new, u) = elim (Bool-cases (key w == key r)) [
    | inl e ↦ rw e (rw (picked r w e) new, u)
    | inr e ↦ rw e (
      ground (arith, listed-challenge (key w) r ws, eq_iff (key r) (key w), eq_iff (key w) (key r)),
      Unique-challenge r ws u,
    )
  ]

  -- One row of each key has rank one.
  pub listed-first_ranked :
      (k : String) (rows : List A)
      → listed k (map key (first_ranked key before rows)) ≡ listed k (map key rows)
  unfolding first_ranked
  listed-first_ranked k [] = refl
  listed-first_ranked k (r ∷ rows) =
      ground
        (arith, listed-challenge k r (first_ranked key before rows), listed-first_ranked k rows)

  pub first_ranked-Unique : (rows : List A) → Unique (map key (first_ranked key before rows))
  unfolding first_ranked
  first_ranked-Unique [] = tt
  first_ranked-Unique (r ∷ rows) =
      Unique-challenge r (first_ranked key before rows) (first_ranked-Unique rows)

  held-challenge :
      (value : A → String) (v k : String) (r : A) (ws : List A)
      → held key value v k (challenge key before r ws) ≡ true
      → ((key r == k && value r == v) || held key value v k ws) ≡ true
  unfolding challenge
  held-challenge value v k r [] h = ground (arith, held-cons key value v k r [])
  held-challenge value v k r (w ∷ ws) h = elim (Bool-cases (key w == key r)) [
    | inl e ↦ elim (Bool-cases (before w r)) [
      | inl f ↦ ground (arith, held-cons key value v k r ws, held-cons key value v k w ws)
      | inr f ↦ ground (arith, held-cons key value v k r ws, held-cons key value v k w ws)
    ]
    | inr e ↦ ground (
      arith,
      held-challenge value v k r ws,
      held-cons key value v k w ws,
      held-cons key value v k w (challenge key before r ws),
    )
  ]

  -- It is a row of the table: what it holds, a row of its key holds.
  pub held-first_ranked :
      (value : A → String) (v k : String) (rows : List A)
      → held key value v k (first_ranked key before rows) ≡ true
      → held key value v k rows ≡ true
  unfolding first_ranked
  held-first_ranked value v k [] h = h
  held-first_ranked value v k (r ∷ rows) h = ground (
    arith,
    held-challenge value v k r (first_ranked key before rows),
    held-first_ranked value v k rows,
    held-cons key value v k r rows,
  )

module _ {ℓ κ} {S : Type ℓ} {T : Type κ} (source_key : S → String) (target_key : T → String) where
  -- `ON target.key = source.key`.
  abbrev pub same_key : S → T → Bool
  same_key s t = target_key t == source_key s

  any-same_key :
      (s : S) (ts : List T) → any (same_key s) ts ≡ listed (source_key s) (map target_key ts)
  any-same_key s [] = refl
  any-same_key s (t ∷ ts) = ground (arith, any-same_key s ts)

  abbrev pub missing : List S → List T → List S
  missing source target = where_true (λ s. not (any (same_key s) target)) source

  missing-eq :
      (source : List S) (target : List T)
      → missing source target
        ≡ where_true (λ s. not (listed (source_key s) (map target_key target))) source
  missing-eq [] target = refl
  missing-eq (s ∷ source) target = ground (arith, missing-eq source target, any-same_key s target)

  module _ (insert : S → T) (kept : (s : S) → target_key (insert s) ≡ source_key s) where
    keys-insert : (source : List S) → map target_key (map insert source) ≡ map source_key source
    keys-insert [] = refl
    keys-insert (s ∷ source) = ground (arith, kept s, keys-insert source)

    pub listed-inserted :
        (k : String) (source : List S) (target : List T)
        → listed k (map target_key (map insert (missing source target)))
          ≡ (not (listed k (map target_key target)) && listed k (map source_key source))
    listed-inserted k source target =
        rw (keys-insert (missing source target), missing-eq source target)
          (listed-where_true source_key (λ j. not (listed j (map target_key target))) k source)

    pub listed-with_inserted :
        (k : String) (source : List S) (target : List T) (ts : List T)
        → map target_key ts ≡ map target_key target
        → listed k (map target_key (ts ++ map insert (missing source target)))
          ≡ (listed k (map target_key target) || listed k (map source_key source))
    listed-with_inserted k source target ts e =
        rw
          (
            map-append target_key ts (map insert (missing source target)),
            listed-append k (map target_key ts)
                (map target_key (map insert (missing source target))),
            e,
            listed-inserted k source target,
          )
          (ground arith)

    -- Afterwards a key stands in the target exactly if it stood there or in the source.
    pub listed-merge_missing :
        (k : String) (source : List S) (target : List T)
        → listed k (map target_key (merge_missing same_key insert source target))
          ≡ (listed k (map target_key target) || listed k (map source_key source))
    unfolding merge_missing
    listed-merge_missing k source target = listed-with_inserted k source target target refl

    pub inserted-Unique :
        (source : List S) (target : List T) (ts : List T)
        → map target_key ts ≡ map target_key target
        → Unique (map source_key source)
        → Unique (map target_key target)
        → Unique (map target_key (ts ++ map insert (missing source target)))
    inserted-Unique source target ts e u v =
        subst Unique (sym (map-append target_key ts (map insert (missing source target)))) (
          Unique-append (map target_key ts) (map target_key (map insert (missing source target)))
            (subst Unique (sym e) v)
            (subst Unique (sym (keys-insert (missing source target)))
              (Unique-where_true source_key (λ s. not (any (same_key s) target)) source u))
            λ k h. ground (arith, listed-inserted k source target, ap (listed k) e))

    pub merge_missing-Unique :
        (source : List S) (target : List T)
        → Unique (map source_key source)
        → Unique (map target_key target)
        → Unique (map target_key (merge_missing same_key insert source target))
    unfolding merge_missing
    merge_missing-Unique source target u v = inserted-Unique source target target refl u v

    nothing :
        (source : List S) (target : List T)
        → ((k : String)
            → listed k (map source_key source) ≡ true
            → listed k (map target_key target) ≡ true)
        → missing source target ≡ []
    nothing [] target h = refl
    nothing (s ∷ source) target h = ground (
      arith,
      nothing source target (λ k m. h k (ground (arith, m))),
      any-same_key s target,
      h (source_key s),
      eq_iff (source_key s) (source_key s),
    )

    -- Where every key of the source stands in the target, nothing is inserted.
    pub merge_missing-nothing :
        (source : List S) (target : List T)
        → ((k : String)
            → listed k (map source_key source) ≡ true
            → listed k (map target_key target) ≡ true)
        → merge_missing same_key insert source target ≡ target
    unfolding merge_missing
    merge_missing-nothing source target h = rw (nothing source target h, append-nil) refl
