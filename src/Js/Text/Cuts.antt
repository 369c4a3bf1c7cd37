-- ===== src/Js/Text/Cuts.antt =====
-- The front of a text: its first character, and cutting it off by its UTF-16 length.
use escld.Prelude.{
  ℕ, ◌+◌, ◌-◌, ◌<◌, String, ◌≡◌, refl, ap, inl, inr, true, false, arith, ◌==◌, eq_iff, leb, eqb,
  Bool-cases,
}
use Prim.Native.Char.{Char, code}
use Prim.Native.String as Text
use Prim.Native.String.{◌++◌ as append_text}
use text.Mathlib.TextLemmas.{nil-append, cons-append}
use escld.Js.Text.{units, utf16_drop, utf16_length}

utf16_drop-zero : (s : String) → utf16_drop 0 s ≡ s
unfolding utf16_drop
utf16_drop-zero Text.[] = refl
utf16_drop-zero (Text.◌∷◌ c s) = refl

skip_units :
    (c : Char) (n : ℕ) (s : String) → utf16_drop (units c + n) (Text.◌∷◌ c s) ≡ utf16_drop n s
unfolding utf16_drop
skip_units c n s = rw (nonzero, leq, rest) refl
  where
    nonzero : eqb (units c + n) 0 ≡ false
    nonzero = ground arith

    leq : leb (units c) (units c + n) ≡ true
    leq = ground arith

    rest : units c + n - units c ≡ n
    rest = omega arith

pub utf16_drop-append : (s t : String) → utf16_drop (utf16_length s) (append_text s t) ≡ t
unfolding utf16_length
utf16_drop-append Text.[] t = rw nil-append (utf16_drop-zero t)
utf16_drop-append (Text.◌∷◌ c s) t =
    rw (cons-append, skip_units c (utf16_length s) (append_text s t)) (utf16_drop-append s t)

-- The first character of a text.
abbrev pub first : String → ℕ
first Text.[] = 0
first (Text.◌∷◌ c s) = code c

pub first-append : (s t : String) → 0 < first s → first (append_text s t) ≡ first s
first-append Text.[] t h = absurd (omega arith)
first-append (Text.◌∷◌ c s) t h = rw cons-append

pub append-nonempty : (s t : String) → 0 < first s → (append_text s t == "") ≡ false
append-nonempty s t h = elim (Bool-cases (append_text s t == "")) [
  | inl empty ↦
      absurd
        (omega (arith, h, first-append s t h, ap first ((eq_iff (append_text s t) "").0 empty)))
  | inr full ↦ full
]
