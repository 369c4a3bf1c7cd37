-- ===== src/Worker/Ffmpeg/Renditions.antt =====
-- The renditions that worker/src/ffmpeg.ts chooses.
use escld.Prelude.{
  ℕ, ◌≤◌, ◌<◌, max, ◌≡◌, inl, inr, true, List, [], ◌∷◌, arith, leb, leb→le, Bool-cases, length, All,
}
use escld.Js.Int.{ℤ, pos, negsuc}
use escld.Worker.Ffmpeg.{VideoRendition, video_ladder, fits, filter, renditions_for}

-- At most as high as the source, or as the smallest rendition.
abbrev pub NotUpscaled : ℤ → VideoRendition → Type 0
NotUpscaled (pos n) r = r.height ≤ max n 480
NotUpscaled (negsuc n) r = r.height ≤ 480

abbrev pub heights : List VideoRendition → List ℕ
heights [] = []
heights (r ∷ rs) = r.height ∷ heights rs

abbrev pub Falling : List ℕ → Type 0
Falling [] = Unit
Falling (h ∷ []) = Unit
Falling (h ∷ k ∷ hs) = (k < h) × Falling (k ∷ hs)

-- For every source height there is a rendition; the heights fall; none is above the source's, or above
-- 480 where the source is lower than that; and every rendition of the ladder that is not above the
-- source is among them, as many as fit being kept.
renditions_for-fit :
    (source_height : ℤ)
    → (0 < length (renditions_for source_height))
      × All (NotUpscaled source_height) (renditions_for source_height)
      × Falling (heights (renditions_for source_height))
      × (length (filter (fits source_height) video_ladder) ≤ length (renditions_for source_height))
unfolding renditions_for
renditions_for-fit (negsuc n) = (omega arith, (omega arith, tt), tt, omega arith)
renditions_for-fit (pos n) = elim (Bool-cases (leb 1080 n)) [
  | inl full ↦
      let h = leb→le 1080 n full in
      rw (full, fits_lower 720 n (omega (arith, h)), fits_lower 480 n (omega (arith, h)))
        (
          omega arith,
          (omega (arith, h), (omega (arith, h), (omega (arith, h), tt))),
          (omega arith, (omega arith, tt)),
          omega arith,
        )
  | inr not_full ↦ elim (Bool-cases (leb 720 n)) [
    | inl mid ↦
        let h = leb→le 720 n mid in
        rw (not_full, mid, fits_lower 480 n (omega (arith, h)))
          (omega arith, (omega (arith, h), (omega (arith, h), tt)), (omega arith, tt), omega arith)
    | inr not_mid ↦ elim (Bool-cases (leb 480 n)) [
      | inl low ↦ rw (not_full, not_mid, low) (omega arith, (omega arith, tt), tt, omega arith)
      | inr lowest ↦
          rw (not_full, not_mid, lowest) (omega arith, (omega arith, tt), tt, omega arith)
    ]
  ]
]
  where
    fits_lower : (a b : ℕ) → a ≤ b → leb a b ≡ true
    fits_lower a b h = ground arith
