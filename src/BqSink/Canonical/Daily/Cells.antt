-- ===== src/BqSink/Canonical/Daily/Cells.antt =====
-- Cells of a GROUP BY: each key has one, and the groups divide the rows. For
-- bq-sink/src/canonicalizer.ts.
use escld.Prelude.{
  ℕ, ◌+◌, ◌*◌, ◌≡◌, refl, sym, ap, ◌∙◌, ◌↔◌, inl, inr, true, List, [], ◌∷◌, arith, eq_iff, ltb,
  if◌then◌else◌, Bool-cases, any,
}
use escld.BqSink.Canonical.Engagement.{Cell, same_cell, cells, group_of}

-- How often a cell stands in a list.
abbrev pub times : Cell → List Cell → ℕ
times c [] = 0
times c (x ∷ xs) = (if same_cell x c then 1 else 0) + times c xs

pub same_cell_iff : (a b : Cell) → (same_cell a b ≡ true) ↔ (a ≡ b)
same_cell_iff (k, d) (j, c) = (
  λ h. ground (arith, eq_iff k j, h),
  λ e. ground (arith, eq_iff k j, ap (λ x. x.0) e, ap (λ x. x.1) e),
)

same_cell_sym : (a b : Cell) → same_cell a b ≡ same_cell b a
same_cell_sym a b = ground (arith, same_cell_iff a b, same_cell_iff b a)

times-any : (c : Cell) (xs : List Cell) → any (same_cell c) xs ≡ ltb 0 (times c xs)
times-any c [] = refl
times-any c (x ∷ xs) = ground (arith, times-any c xs, same_cell_sym c x)

-- A cell that stands in the keys stands once among the cells of the groups, and no other does.
pub times-cells :
    (c : Cell) (xs : List Cell) → times c (cells xs) ≡ (if ltb 0 (times c xs) then 1 else 0)
unfolding cells
times-cells c [] = refl
times-cells c (x ∷ xs) = elim (Bool-cases (any (same_cell x) xs)) [
  | inl e ↦ rw e (ground (arith, times-cells c xs, times-any x xs, same_cell_iff x c, e))
  | inr e ↦ rw e (ground (arith, times-cells c xs, times-any x xs, same_cell_iff x c, e))
]

one_more : (t w : ℕ) → (1 + t) * w ≡ w + t * w
one_more t w = grind arith

pub none_more : (t : ℕ) → 0 + t ≡ t
none_more t = omega arith

module _ {ℓ} {A : Type ℓ} (weight : A → ℕ) where
  abbrev pub total : List A → ℕ
  total [] = 0
  total (x ∷ xs) = weight x + total xs

  abbrev pub total_of_groups : List Cell → List (Cell × A) → ℕ
  total_of_groups [] rows = 0
  total_of_groups (c ∷ cs) rows = total (group_of c rows) + total_of_groups cs rows

  abbrev pub total_of_rows : List Cell → List (Cell × A) → ℕ
  total_of_rows cs [] = 0
  total_of_rows cs ((c, x) ∷ rows) = times c cs * weight x + total_of_rows cs rows

  groups_of_nothing : (cs : List Cell) → total_of_groups cs [] ≡ 0
  groups_of_nothing [] = refl
  groups_of_nothing (c ∷ cs) = omega (arith, groups_of_nothing cs)

  groups_of_row :
      (c : Cell) (x : A) (cs : List Cell) (rows : List (Cell × A))
      → total_of_groups cs ((c, x) ∷ rows) ≡ times c cs * weight x + total_of_groups cs rows
  groups_of_row c x [] rows = omega arith
  groups_of_row c x (d ∷ cs) rows = elim (Bool-cases (same_cell c d)) [
    | inl e ↦
        rw (e, sym (same_cell_sym c d) ∙ e)
          (omega (arith, groups_of_row c x cs rows, one_more (times c cs) (weight x)))
    | inr e ↦
        rw (e, sym (same_cell_sym c d) ∙ e)
          (omega (arith, groups_of_row c x cs rows, none_more (times c cs)))
  ]

  -- The groups of the cells hold each row as often as its cell stands there.
  pub total_of_groups-rows :
      (cs : List Cell) (rows : List (Cell × A)) → total_of_groups cs rows ≡ total_of_rows cs rows
  total_of_groups-rows cs [] = groups_of_nothing cs
  total_of_groups-rows cs ((c, x) ∷ rows) =
      omega (arith, groups_of_row c x cs rows, total_of_groups-rows cs rows)
