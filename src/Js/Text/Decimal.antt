-- ===== src/Js/Text/Decimal.antt =====
-- Printed numbers can be read back, and hold no dash: what keys built from them rely on.
use escld.Prelude.{
  ℕ, zero, suc, ◌+◌, ◌-◌, ◌*◌, ◌/◌, ◌%◌, ◌≤◌, ◌<◌, String, ◌≡◌, refl, sym, ap, ◌∙◌, subst, ◌≢◌, inl,
  inr, arith, ltb, ltb→lt, Bool-cases,
}
use Prim.Native.Char.{code}
use Prim.Native.String.{◌∷◌ as cons_text, ◌++◌ as append_text}
use text.Mathlib.TextLemmas.{
  nil-append, cons-append, append_cancel_left, tail-eq_of_cons-eq, head-eq_of_cons-eq,
}
use escld.Js.Text.{digit, decimal_from, decimal}

-- Reads digits, most significant first, behind a value read so far.
value_from : String → ℕ → ℕ
value_from String.[] acc = acc
value_from (String.◌∷◌ c s) acc = value_from s (acc * 10 + (code c - 48))

value_from-append :
    (s t : String) (acc : ℕ) → value_from (append_text s t) acc ≡ value_from t (value_from s acc)
unfolding value_from
value_from-append String.[] t acc = rw nil-append
value_from-append (String.◌∷◌ c s) t acc = rw cons-append (value_from-append s t _)

value_from-digit : (n acc : ℕ) → n < 10 → value_from (digit n) acc ≡ acc * 10 + n
unfolding value_from
value_from-digit zero acc h = omega arith
value_from-digit (suc zero) acc h = omega arith
value_from-digit (suc (suc zero)) acc h = omega arith
value_from-digit (suc (suc (suc zero))) acc h = omega arith
value_from-digit (suc (suc (suc (suc zero)))) acc h = omega arith
value_from-digit (suc (suc (suc (suc (suc zero))))) acc h = omega arith
value_from-digit (suc (suc (suc (suc (suc (suc zero)))))) acc h = omega arith
value_from-digit (suc (suc (suc (suc (suc (suc (suc zero))))))) acc h = omega arith
value_from-digit (suc (suc (suc (suc (suc (suc (suc (suc zero)))))))) acc h = omega arith
value_from-digit (suc (suc (suc (suc (suc (suc (suc (suc (suc zero))))))))) acc h = omega arith
value_from-digit (suc (suc (suc (suc (suc (suc (suc (suc (suc (suc n)))))))))) acc h =
    absurd (omega arith)

value_from-decimal_from : (fuel n : ℕ) → n ≤ fuel → value_from (decimal_from fuel n) 0 ≡ n
unfolding decimal_from
value_from-decimal_from zero n h = value_from-digit n 0 (omega arith) ∙ omega arith
value_from-decimal_from (suc fuel) n h = elim (Bool-cases (ltb n 10)) [
  | inl small ↦ rw small (value_from-digit n 0 (ltb→lt _ _ small) ∙ omega arith)
  | inr large ↦ rw large (
      value_from-append (decimal_from fuel (n / 10)) (digit (n % 10)) 0
      ∙ ap (λ k. value_from (digit (n % 10)) k)
          (value_from-decimal_from fuel (n / 10) (ground arith))
      ∙ value_from-digit (n % 10) (n / 10) (omega arith)
      ∙ omega arith)
]

pub decimal-injective : (m n : ℕ) → decimal m ≡ decimal n → m ≡ n
unfolding decimal
decimal-injective m n e =
    sym (value_from-decimal_from m m (omega arith))
    ∙ ap (λ s. value_from s 0) e
    ∙ value_from-decimal_from n n (omega arith)

abbrev pub NoDash : String → Type 0
NoDash String.[] = Unit
NoDash (String.◌∷◌ c s) = (code c ≢ b'-') × NoDash s

NoDash-append : (s t : String) → NoDash s → NoDash t → NoDash (append_text s t)
NoDash-append String.[] t h k = rw nil-append k
NoDash-append (String.◌∷◌ c s) t (p, h) k = rw cons-append (p, NoDash-append s t h k)

NoDash-digit : (n : ℕ) → n < 10 → NoDash (digit n)
NoDash-digit zero h = omega arith
NoDash-digit (suc zero) h = omega arith
NoDash-digit (suc (suc zero)) h = omega arith
NoDash-digit (suc (suc (suc zero))) h = omega arith
NoDash-digit (suc (suc (suc (suc zero)))) h = omega arith
NoDash-digit (suc (suc (suc (suc (suc zero))))) h = omega arith
NoDash-digit (suc (suc (suc (suc (suc (suc zero)))))) h = omega arith
NoDash-digit (suc (suc (suc (suc (suc (suc (suc zero))))))) h = omega arith
NoDash-digit (suc (suc (suc (suc (suc (suc (suc (suc zero)))))))) h = omega arith
NoDash-digit (suc (suc (suc (suc (suc (suc (suc (suc (suc zero))))))))) h = omega arith
NoDash-digit (suc (suc (suc (suc (suc (suc (suc (suc (suc (suc n)))))))))) h = absurd (omega arith)

NoDash-decimal_from : (fuel n : ℕ) → n ≤ fuel → NoDash (decimal_from fuel n)
unfolding decimal_from
NoDash-decimal_from zero n h = NoDash-digit n (omega arith)
NoDash-decimal_from (suc fuel) n h = elim (Bool-cases (ltb n 10)) [
  | inl small ↦ rw small (NoDash-digit n (ltb→lt _ _ small))
  | inr large ↦ rw large (
      NoDash-append (decimal_from fuel (n / 10)) (digit (n % 10))
        (NoDash-decimal_from fuel (n / 10) (ground arith)) (NoDash-digit (n % 10) (omega arith)))
]

pub NoDash-decimal : (n : ℕ) → NoDash (decimal n)
unfolding decimal
NoDash-decimal n = NoDash-decimal_from n n (omega arith)

dash-append : (t : String) → append_text "-" t ≡ cons_text "-" t
dash-append t = cons-append "-" "" t ∙ ap (λ s. cons_text "-" s) (nil-append t)

has_dash : (s t : String) → ¬ NoDash (append_text s (append_text "-" t))
has_dash String.[] t h = (subst NoDash (nil-append _ ∙ dash-append t) h).0 refl
has_dash (String.◌∷◌ c s) t h = has_dash s t (subst NoDash (cons-append c s _) h).1

-- Behind the last dash of a text stands one piece only.
pub last_dash :
    (s s' t t' : String)
    → NoDash t
    → NoDash t'
    → append_text s (append_text "-" t) ≡ append_text s' (append_text "-" t')
    → (s ≡ s') × (t ≡ t')
last_dash String.[] String.[] t t' h h' e =
    (refl, append_cancel_left "-" t t' (sym (nil-append _) ∙ e ∙ nil-append _))
last_dash String.[] (String.◌∷◌ c' s') t t' h h' e = absurd (
    has_dash s' t' (
      subst NoDash
        (tail-eq_of_cons-eq (sym (nil-append _ ∙ dash-append t) ∙ e ∙ cons-append c' s' _)) h))
last_dash (String.◌∷◌ c s) String.[] t t' h h' e = absurd (
    has_dash s t (
      subst NoDash
        (tail-eq_of_cons-eq (sym (nil-append _ ∙ dash-append t') ∙ sym e ∙ cons-append c s _)) h'))
last_dash (String.◌∷◌ c s) (String.◌∷◌ c' s') t t' h h' e =
    let f = sym (cons-append c s _) ∙ e ∙ cons-append c' s' _ in
    let (same, last) = last_dash s s' t t' h h' (tail-eq_of_cons-eq f) in
    (cc (head-eq_of_cons-eq f, same), last)
