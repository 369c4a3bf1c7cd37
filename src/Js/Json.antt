-- ===== src/Js/Json.antt =====
-- JSON values as `JSON.parse` returns them, and the ways in which the services read them.
-- A key that an object repeats is dropped by the parser, so `find` may take the first.
use escld.Prelude.{
  ℕ, suc, ◌-◌, ◌^◌, ◌≡◌, refl, Bool, true, false, ◌||◌, ◌↔◌, String, Option, none, some, List, [],
  ◌∷◌, arith, leb, ◌==◌, eq_iff, if◌then◌else◌,
}
use escld.Js.Int.{ℤ, abs}
use escld.Js.Text.{decimal}

-- A JavaScript number: an integer, or another value of which the programs only ask its type.
pub data Number : Type 0 where
  int : ℤ → Number
  fraction : ℕ → Number

mutual
  pub data Json : Type 0 where
    null : Json
    bool : Bool → Json
    num : Number → Json
    str : String → Json
    arr : Items → Json
    obj : Fields → Json

  pub data Items : Type 0 where
    nil : Items
    cons : Json → Items → Items

  pub data Fields : Type 0 where
    end : Fields
    field : String → Json → Fields → Fields

abbrev pub items : Items → List Json
items nil = []
items (cons v vs) = v ∷ items vs

abbrev pub fields : Fields → List (String × Json)
fields end = []
fields (field k v fs) = (k, v) ∷ fields fs

abbrev pub find : String → List (String × Json) → Option Json
find key [] = none
find key ((k, v) ∷ fs) = if k == key then some v else find key fs

-- `value.key` and `value?.key`; `none` is `undefined`.
abbrev pub prop : String → Json → Option Json
prop key (obj fs) = find key (fields fs)
prop key _ = none

abbrev numbered : ℕ → List Json → List (String × Json)
numbered i [] = []
numbered i (v ∷ vs) = (decimal i, v) ∷ numbered (suc i) vs

-- The own properties that `...value` spreads: an array's are its indices.
abbrev pub entries : Json → List (String × Json)
entries (obj fs) = fields fs
entries (arr vs) = numbered 0 (items vs)
entries _ = []

-- `typeof value === "object" && value !== null`: arrays are objects.
abbrev pub is_object : Option Json → Bool
is_object (some (obj fs)) = true
is_object (some (arr vs)) = true
is_object _ = false

-- `typeof value === "string"`.
abbrev pub is_string : Option Json → Bool
is_string (some (str s)) = true
is_string _ = false

abbrev pub is_str : Json → Bool
is_str (str s) = true
is_str _ = false

-- `value === undefined || value === null`.
abbrev pub is_nullish : Option Json → Bool
is_nullish none = true
is_nullish (some null) = true
is_nullish _ = false

-- `value === text`.
abbrev pub is_text : String → Option Json → Bool
is_text text (some (str s)) = s == text
is_text text _ = false

-- `value as string`, after a test that it is one.
abbrev pub as_string : Option Json → String
as_string (some (str s)) = s
as_string _ = ""

abbrev pub max_safe_integer : ℕ
max_safe_integer = 2 ^ 53 - 1

-- `Number.isSafeInteger(value)`.
abbrev pub is_safe_integer : Option Json → Bool
is_safe_integer (some (num (int z))) = leb (abs z) max_safe_integer
is_safe_integer _ = false

-- `a ?? b`.
infixr 20 ◌or_else◌
abbrev pub ◌or_else◌ : Option Json → Option Json → Option Json
none or_else b = b
some null or_else b = b
some v or_else b = some v

-- `a ?? null`.
abbrev pub or_null : Option Json → Json
or_null none = null
or_null (some v) = v

-- What the programs take from the JavaScript engine and do not implement: `JSON.parse` on the text
-- of a message (`none` where it throws), `Date.parse` in epoch milliseconds (`none` for NaN),
-- `JSON.stringify` on an object literal (`none` where it throws); then `text.toLowerCase()`, and
-- `value > 0` on a value that need not be a number; `as_text` is the text in which a template or a
-- client prints a value that is no text, `none` where the value is falsy.
pub record Engine : Type 0 where
  pub json_parse : String → Option Json
  pub date_parse : String → Option ℤ
  pub stringify : List (String × Json) → Option String
  pub to_lower_case : String → String
  pub is_positive : Option Json → Bool
  pub as_text : Json → Option String

-- An assignment, or a later property of a literal, replaces a key in place or adds it at the end.
abbrev pub assign : String → Json → List (String × Json) → List (String × Json)
assign key v [] = (key, v) ∷ []
assign key v ((k, w) ∷ fs) = if k == key then (k, v) ∷ fs else (k, w) ∷ assign key v fs

-- `{ ...fs, k₁: v₁, … }`.
abbrev pub assign_all : List (String × Json) → List (String × Json) → List (String × Json)
assign_all [] fs = fs
assign_all ((k, v) ∷ more) fs = assign_all more (assign k v fs)

abbrev pub has_key : String → List (String × Json) → Bool
has_key key [] = false
has_key key ((k, v) ∷ fs) = k == key || has_key key fs

pub find-assign :
    (key j : String) (v : Json) (fs : List (String × Json))
    → find j (assign key v fs) ≡ (if key == j then some v else find j fs)
find-assign key j v [] = refl
find-assign key j v ((k, w) ∷ fs) =
    ground (arith, eq_iff k key, eq_iff k j, eq_iff key j, find-assign key j v fs)

pub find-assign_all :
    (key : String) (more fs : List (String × Json))
    → has_key key more ≡ false
    → find key (assign_all more fs) ≡ find key fs
find-assign_all key [] fs h = refl
find-assign_all key ((k, v) ∷ more) fs h =
    ground (arith, find-assign_all key more (assign k v fs), find-assign k key v fs)

-- What the type tests decide.
pub is_string_iff : (o : Option Json) → (is_string o ≡ true) ↔ ((s : String) × (o ≡ some (str s)))
is_string_iff none = ground arith
is_string_iff (some (str s)) = (λ _. (s, refl), λ _. refl)
is_string_iff (some null) = ground arith
is_string_iff (some (bool b)) = ground arith
is_string_iff (some (num n)) = ground arith
is_string_iff (some (arr vs)) = ground arith
is_string_iff (some (obj fs)) = ground arith
