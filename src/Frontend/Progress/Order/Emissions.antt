-- ===== src/Frontend/Progress/Order/Emissions.antt =====
-- What `emit` and the crossing of milestones in hooks/use-media-progress.ts keep.
use escld.Prelude.{
  All-map, ℕ, suc, ◌-◌, ◌*◌, ◌≤◌, ◌<◌, max, ◌≡◌, refl, sym, ◌∙◌, subst, ◌≢◌, ◌⊎◌, inl, inr, Bool,
  true, false, not, ◌&&◌, List, [], ◌∷◌, arith, leb, if◌then◌else◌, Bool-cases, length, All,
}
use escld.Frontend.Progress.{
  max_media_duration_ms, Emission, Progress, contains, emit, crossed, emit_all, emit_crossed,
}

-- Emissions in order, the last one first: the sequence counts them, the played time never falls and
-- stays within the duration, and a milestone is reported once.
abbrev pub IsOrdered : List Emission → Type 0
IsOrdered [] = Unit
IsOrdered (e ∷ es) =
    (e.playback_sequence ≡ suc (length es))
    × (e.media_played_ms ≤ e.media_duration_ms)
    × (e.media_duration_ms ≤ max_media_duration_ms)
    × All (λ f. f.media_played_ms ≤ e.media_played_ms) es
    × ((e.milestone_percent ≡ 0) ⊎ All (λ f. f.milestone_percent ≢ e.milestone_percent) es)
    × IsOrdered es

-- The variables agree with what was emitted.
pub record IsSound (s : Progress) : Type 0 where
  pub counted : s.playback_sequence ≡ length s.emitted
  pub reached : All (λ f. f.media_played_ms ≤ s.last_reported_played_ms) s.emitted
  pub marked :
      All
        (λ f.
          (f.milestone_percent ≡ 0) ⊎ (contains f.milestone_percent s.reported_milestones ≡ true))
        s.emitted
  pub ordered : IsOrdered s.emitted

-- Milestones that may be reported: not zero, rising, and none reported before.
abbrev Fresh : List ℕ → List ℕ → Type 0
Fresh reported [] = Unit
Fresh reported (m ∷ ms) =
    (0 < m) × (contains m reported ≡ false) × All (λ n. m < n) ms × Fresh reported ms

abbrev pub Rising : List ℕ → Type 0
Rising [] = Unit
Rising (m ∷ ms) = (0 < m) × All (λ n. m < n) ms × Rising ms

crossed-above :
    (m played total : ℕ) (reported ms : List ℕ)
    → All (λ n. m < n) ms
    → All (λ n. m < n) (crossed played total reported ms)
crossed-above m played total reported [] h = tt
crossed-above m played total reported (n ∷ ms) (l, h) =
    elim (Bool-cases (leb (n * total) (played * 100) && not (contains n reported))) [
      | inl due ↦ rw (due, crossed) (l, crossed-above m played total reported ms h)
      | inr not_due ↦ rw (not_due, crossed) (crossed-above m played total reported ms h)
    ]

pub crossed-Fresh :
    (played total : ℕ) (reported ms : List ℕ)
    → Rising ms
    → Fresh reported (crossed played total reported ms)
crossed-Fresh played total reported [] h = tt
crossed-Fresh played total reported (m ∷ ms) (z, above, h) =
    elim (Bool-cases (leb (m * total) (played * 100) && not (contains m reported))) [
      | inl due ↦
          rw (due, crossed)
            (
              z,
              ground arith,
              crossed-above m played total reported ms above,
              crossed-Fresh played total reported ms h,
            )
      | inr not_due ↦ rw (not_due, crossed) (crossed-Fresh played total reported ms h)
    ]

Fresh-add :
    (m : ℕ) (reported ms : List ℕ)
    → All (λ n. m < n) ms
    → Fresh reported ms
    → Fresh (m ∷ reported) ms
Fresh-add m reported [] a h = tt
Fresh-add m reported (n ∷ ms) (l, a) (z, new, above, h) =
    (z, ground (arith, l, new), above, Fresh-add m reported ms a h)

-- An emission keeps the state sound, if it does not fall back and its milestone is none or new.
emit-IsSound :
    (milestone played total : ℕ) (s : Progress)
    → IsSound s
    → s.last_reported_played_ms ≤ played
    → played ≤ total
    → total ≤ max_media_duration_ms
    → (milestone ≡ 0)
      ⊎ ((contains milestone s.reported_milestones ≡ true)
          × All (λ f. f.milestone_percent ≢ milestone) s.emitted)
    → IsSound (emit milestone played total s)
unfolding emit
emit-IsSound milestone played total s sound rises within bounded new = record {
  counted = omega (arith, sound.counted);
  reached = (
    omega arith,
    All-map {P = λ f. f.media_played_ms ≤ s.last_reported_played_ms}
        {Q = λ f. f.media_played_ms ≤ max s.last_reported_played_ms played}
        (λ f h. omega (arith, h)) s.emitted sound.reached,
  );
  marked =
      (elim new [ inl zero_one ↦ inl zero_one | inr (known, others) ↦ inr known ], sound.marked);
  ordered = (
    omega (arith, sound.counted),
    within,
    bounded,
    All-map {P = λ f. f.media_played_ms ≤ s.last_reported_played_ms}
        {Q = λ f. f.media_played_ms ≤ played} (λ f h. omega (arith, h, rises)) s.emitted
        sound.reached,
    elim new [ inl zero_one ↦ inl zero_one | inr (known, others) ↦ inr others ],
    sound.ordered,
  );
}

true_is_not_false : true ≡ false → ⊥
true_is_not_false e = ground arith

-- A new milestone was not emitted before.
new_milestone :
    (m : ℕ) (reported : List ℕ) (es : List Emission)
    → 0 < m
    → contains m reported ≡ false
    → All (λ f. (f.milestone_percent ≡ 0) ⊎ (contains f.milestone_percent reported ≡ true)) es
    → All (λ f. f.milestone_percent ≢ m) es
new_milestone m reported es z new marked =
    All-map {P = λ f. (f.milestone_percent ≡ 0) ⊎ (contains f.milestone_percent reported ≡ true)}
      {Q = λ f. f.milestone_percent ≢ m} differs es marked
  where
    differs :
        (f : Emission)
        → (f.milestone_percent ≡ 0) ⊎ (contains f.milestone_percent reported ≡ true)
        → f.milestone_percent ≢ m
    differs f (inl none_at) e = absurd (omega (arith, z, none_at, e))
    differs f (inr known) e =
        absurd (true_is_not_false (sym (subst (λ k. contains k reported ≡ true) e known) ∙ new))

mark-IsSound :
    (m : ℕ) (s : Progress)
    → IsSound s
    → IsSound (record s { reported_milestones = m ∷ s.reported_milestones })
mark-IsSound m s sound = record {
  counted = sound.counted;
  reached = sound.reached;
  marked =
      All-map
        {P = λ f.
          (f.milestone_percent ≡ 0) ⊎ (contains f.milestone_percent s.reported_milestones ≡ true)}
        {Q = λ f.
          (f.milestone_percent ≡ 0)
          ⊎ (contains f.milestone_percent (m ∷ s.reported_milestones) ≡ true)}
        (λ f h. ground (arith, h)) s.emitted sound.marked;
  ordered = sound.ordered;
}

emit_all-IsSound :
    (played total : ℕ) (ms : List ℕ) (s : Progress)
    → IsSound s
    → s.last_reported_played_ms ≤ played
    → played ≤ total
    → total ≤ max_media_duration_ms
    → Fresh s.reported_milestones ms
    → IsSound (emit_all played total ms s)
unfolding emit
emit_all-IsSound played total [] s sound rises within bounded fresh = sound
emit_all-IsSound played total (m ∷ ms) s sound rises within bounded (z, new, above, fresh) =
    let marked : Progress = record s { reported_milestones = m ∷ s.reported_milestones } in
    emit_all-IsSound played total ms (emit m played total marked)
      (emit-IsSound m played total marked (mark-IsSound m s sound) rises within bounded
        (inr (ground arith, new_milestone m s.reported_milestones s.emitted z new sound.marked)))
      (omega (arith, rises)) within bounded (Fresh-add m s.reported_milestones ms above fresh)

pub emit_crossed-IsSound :
    (played total : ℕ) (ms : List ℕ) (s : Progress)
    → IsSound s
    → s.last_reported_played_ms ≤ played
    → played ≤ total
    → total ≤ max_media_duration_ms
    → Fresh s.reported_milestones ms
    → IsSound (emit_crossed played total ms s)
emit_crossed-IsSound played total [] s sound rises within bounded fresh =
    choose (leb 5000 (played - s.last_reported_played_ms))
      (emit-IsSound 0 played total s sound rises within bounded (inl refl))
  where
    choose :
        (b : Bool)
        → IsSound (emit 0 played total s)
        → IsSound (if b then emit 0 played total s else s)
    choose true more = more
    choose false more = sound
emit_crossed-IsSound played total (m ∷ ms) s sound rises within bounded fresh =
    emit_all-IsSound played total (m ∷ ms) s sound rises within bounded fresh
