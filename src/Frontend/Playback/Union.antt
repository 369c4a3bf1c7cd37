-- ===== src/Frontend/Playback/Union.antt =====
-- `UniquePlaybackTracker` keeps the union of what was watched, as ranges in order and apart.
use escld.Prelude.{
  ℕ, suc, ◌-◌, ◌≤◌, min, max, ◌≡◌, refl, ap, ◌∙◌, inl, inr, Bool, false, not, ◌&&◌, ◌||◌, none,
  some, List, [], ◌∷◌, ◌++◌, arith, ltb, leb, ltb→lt, Bool-cases, any, All,
}
use escld.Frontend.Playback.{Time, from_zero, leb_ℤ, Range, place, merge, add, played}

abbrev pub within : ℕ → Range → Bool
within x (start, end) = leb start x && leb x end

abbrev pub covers : ℕ → List Range → Bool
covers x [] = false
covers x (r ∷ ranges) = within x r || covers x ranges

-- The instant lies in the part of a report that counts.
abbrev pub watched : ℕ → Time → Time → Bool
watched x (some start) (some end) =
    not (leb_ℤ end start) && within x (from_zero start, from_zero end)
watched x _ _ = false

place-covers :
    (x : ℕ) (pending range : Range)
    → (covers x (place pending range).0 || within x (place pending range).1)
      ≡ (within x pending || within x range)
unfolding place
place-covers x (start, end) (a, b) = ground arith

covers-append : (x : ℕ) (rs ss : List Range) → covers x (rs ++ ss) ≡ (covers x rs || covers x ss)
covers-append x [] ss = refl
covers-append x (r ∷ rs) ss = ground (arith, covers-append x rs ss)

merge-covers :
    (x : ℕ) (pending : Range) (ranges : List Range)
    → covers x (merge pending ranges) ≡ (within x pending || covers x ranges)
unfolding merge
merge-covers x pending [] = refl
merge-covers x pending (range ∷ ranges) =
    let next = (place pending range).1 in
    ground (
      arith,
      merge-covers x next ranges,
      place-covers x pending range,
      covers-append x (place pending range).0 (merge next ranges),
    )

-- After a report, an instant is covered exactly where it was before, or lies in the part of the
-- report that counts: from its start, or 0 if that is greater, up to its end, for a finite report
-- whose end is after its start.
pub add-covers :
    (x : ℕ) (start end : Time) (ranges : List Range)
    → covers x (add start end ranges) ≡ (watched x start end || covers x ranges)
unfolding add
add-covers x none end ranges = refl
add-covers x (some start) none ranges = refl
add-covers x (some start) (some end) ranges =
    ground (arith, merge-covers x (from_zero start, max (from_zero start) (from_zero end)) ranges)

-- The ranges are in order and apart, and none before `low`.
abbrev pub Apart : ℕ → List Range → Type 0
Apart low [] = Unit
Apart low ((start, end) ∷ ranges) = (low ≤ start) × (start ≤ end) × Apart (suc end) ranges

Apart-weaken :
    (low lower : ℕ) (ranges : List Range) → lower ≤ low → Apart low ranges → Apart lower ranges
Apart-weaken low lower [] h k = tt
Apart-weaken low lower (r ∷ ranges) h (l, o, k) = (omega (arith, l, h), o, k)

merge-Apart :
    (low : ℕ) (pending : Range) (ranges : List Range)
    → Apart low (pending ∷ [])
    → Apart low ranges
    → Apart low (merge pending ranges)
unfolding merge place
merge-Apart low pending [] h k = h
merge-Apart low (start, end) ((a, b) ∷ ranges) (l, o, u) (la, ab, k) =
    elim (Bool-cases (ltb b start)) [
      | inl later ↦
          rw (later, merge)
            (la, ab, merge-Apart (suc b) (start, end) ranges (ltb→lt b start later, o, tt) k)
      | inr not_later ↦ elim (Bool-cases (ltb end a)) [
        | inl instead ↦
            rw (not_later, instead, merge)
              (
                l,
                o,
                merge-Apart (suc end) (a, b) ranges (ltb→lt end a instead, ab, tt)
                    (Apart-weaken (suc b) (suc end) ranges (omega (arith, ltb→lt end a instead, ab))
                      k),
              )
        | inr joined ↦
            rw (not_later, joined, merge)
              (merge-Apart low (min start a, max end b) ranges (omega arith, omega arith, tt)
                (Apart-weaken (suc b) low ranges (omega arith) k))
      ]
    ]

abbrev pub EndsBy : ℕ → List Range → Type 0
EndsBy limit ranges = All (λ (start, end). end ≤ limit) ranges

merge-EndsBy :
    (limit : ℕ) (pending : Range) (ranges : List Range)
    → EndsBy limit (pending ∷ [])
    → EndsBy limit ranges
    → EndsBy limit (merge pending ranges)
unfolding merge place
merge-EndsBy limit pending [] h k = h
merge-EndsBy limit (start, end) ((a, b) ∷ ranges) (h, u) (ab, k) = elim (Bool-cases (ltb b start)) [
  | inl later ↦ rw (later, merge) (ab, merge-EndsBy limit (start, end) ranges (h, tt) k)
  | inr not_later ↦ elim (Bool-cases (ltb end a)) [
    | inl instead ↦ rw (not_later, instead, merge) (h, merge-EndsBy limit (a, b) ranges (ab, tt) k)
    | inr joined ↦
        rw (not_later, joined, merge)
          (merge-EndsBy limit (min start a, max end b) ranges (omega arith, tt) k)
  ]
]

played-limit :
    (limit low : ℕ) (ranges : List Range)
    → Apart low ranges
    → EndsBy limit ranges
    → played ranges ≤ limit - low
played-limit limit low [] h k = omega arith
played-limit limit low ((start, end) ∷ ranges) (l, o, h) (e, k) =
    omega (arith, l, o, e, played-limit limit (suc end) ranges h k)

-- The reports of a tracker, the last one first, and what it holds after them.
abbrev pub track : List (Time × Time) → List Range
track [] = []
track ((start, end) ∷ reports) = add start end (track reports)

-- The report ends by the limit, where it is finite.
abbrev pub ReportEndsBy : ℕ → Time × Time → Type 0
ReportEndsBy limit (start, none) = Unit
ReportEndsBy limit (start, some end) = from_zero end ≤ limit

add-invariants :
    (limit : ℕ) (start end : Time) (ranges : List Range)
    → ReportEndsBy limit (start, end)
    → Apart 0 ranges × EndsBy limit ranges
    → Apart 0 (add start end ranges) × EndsBy limit (add start end ranges)
unfolding add
add-invariants limit none end ranges h k = k
add-invariants limit (some start) none ranges h k = k
add-invariants limit (some start) (some end) ranges h (apart, ends) =
    elim (Bool-cases (leb_ℤ end start)) [
      | inl backward ↦ rw (backward, add) (apart, ends)
      | inr forward ↦
          let pending : Range = (from_zero start, max (from_zero start) (from_zero end)) in
          rw (forward, add)
            (
              merge-Apart 0 pending ranges (omega arith, omega arith, tt) apart,
              merge-EndsBy limit pending ranges (ground arith, tt) ends,
            )
    ]

track-invariants :
    (limit : ℕ) (reports : List (Time × Time))
    → All (ReportEndsBy limit) reports
    → Apart 0 (track reports) × EndsBy limit (track reports)
track-invariants limit [] h = (tt, tt)
track-invariants limit ((start, end) ∷ reports) (r, h) =
    add-invariants limit start end (track reports) r (track-invariants limit reports h)

-- However often parts were watched again, the tracker covers an instant exactly where a report does,
-- its ranges are in order and apart, and its total is at most the latest end that was reported.
pub track-union :
    (limit : ℕ) (reports : List (Time × Time))
    → All (ReportEndsBy limit) reports
    → ((x : ℕ) → covers x (track reports) ≡ any (λ (start, end). watched x start end) reports)
      × Apart 0 (track reports)
      × (played (track reports) ≤ limit)
track-union limit reports h =
    let (apart, ends) = track-invariants limit reports h in
    (union reports, apart, omega (arith, played-limit limit 0 (track reports) apart ends))
  where
    union :
        (reports : List (Time × Time)) (x : ℕ)
        → covers x (track reports) ≡ any (λ (start, end). watched x start end) reports
    union [] x = refl
    union ((start, end) ∷ reports) x =
        add-covers x start end (track reports)
        ∙ ap (λ b. watched x start end || b) (union reports x)
