-- ===== src/Frontend/Playback.antt =====
-- Unique playback of a video: `UniquePlaybackTracker` of frontend/src/hooks/use-media-progress.ts.
pub mod Union
use escld.Prelude.{
  ℕ, ◌+◌, ◌-◌, min, max, Bool, Option, some, List, [], ◌∷◌, ◌++◌, ltb, leb, if◌then◌else◌,
}
use escld.Js.Int.{ℤ, pos_part, neg_part}

-- A time in seconds is a double. The finite ones are the integer multiples of 2^-1074 that a double
-- can hold: they are given in that unit, and a time that is not finite is `none`. The tracker only
-- compares times, which is exact.
abbrev pub Time : Type 0
Time = Option ℤ

-- `Math.max(0, time)`.
abbrev pub from_zero : ℤ → ℕ
from_zero = pos_part

abbrev pub leb_ℤ : ℤ → ℤ → Bool
leb_ℤ a b = leb (pos_part a + neg_part b) (pos_part b + neg_part a)

abbrev pub Range : Type 0
Range = ℕ × ℕ

-- One round of the loop over `this.ranges`: what is pushed to `merged`, and the next `pending`.
unfoldable pub place : Range → Range → List Range × Range
place (start, end) (a, b) =
    if ltb b start
    then ((a, b) ∷ [], (start, end))
    else if ltb end a
    then ((start, end) ∷ [], (a, b))
    else ([], (min start a, max end b))

-- The loop, with the last push.
unfoldable pub merge : Range → List Range → List Range
merge pending [] = pending ∷ []
merge pending (range ∷ ranges) =
    let (pushed, next) = place pending range in pushed ++ merge next ranges

abbrev pub add_finite : ℤ → ℤ → List Range → List Range
add_finite start end ranges =
    if leb_ℤ end start
    then ranges
    else merge (from_zero start, max (from_zero start) (from_zero end)) ranges

unfoldable pub add : Time → Time → List Range → List Range
unfolding merge
add (some start) (some end) ranges = add_finite start end ranges
add _ _ ranges = ranges

-- The sum of `playedMs`, exact and in the unit of time: without the rounding to milliseconds.
abbrev pub played : List Range → ℕ
played [] = 0
played ((start, end) ∷ ranges) = (end - start) + played ranges
