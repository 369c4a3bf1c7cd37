-- ===== src/BqSink/Archive/Lines.antt =====
-- Reading back what bq-sink/src/archive.ts writes: a line for each envelope.
use escld.Prelude.{
  String, ◌≡◌, refl, ap, ◌∙◌, subst, ◌↔◌, inl, inr, Bool, true, false, not, ◌&&◌, List, [], ◌∷◌,
  map, arith, eqb, if◌then◌else◌, Bool-cases, All,
}
use Prim.Native.Char.{Char, code}
use Prim.Native.String.{◌++◌ as append_text}
use text.Mathlib.TextLemmas.{nil-append, cons-append}
use escld.BqSink.Messages.Batch.{ArchiveRecord}
use escld.BqSink.Archive.{Bucket, archive_key, without_slashes, lines_of, write_batch}

abbrev is_newline : Char → Bool
is_newline c = eqb (code c) 10

-- A text without a newline.
abbrev pub is_line : String → Bool
is_line String.[] = true
is_line (String.◌∷◌ c s) = not (is_newline c) && is_line s

abbrev onto_first : Char → List String → List String
onto_first c [] = String.◌∷◌ c "" ∷ []
onto_first c (l ∷ ls) = String.◌∷◌ c l ∷ ls

-- The lines of a text, as a reader splits it at newlines.
abbrev pub lines : String → List String
lines String.[] = "" ∷ []
lines (String.◌∷◌ c s) = let rest = lines s in if is_newline c then "" ∷ rest else onto_first c rest

lines-line : (s : String) → is_line s ≡ true → lines s ≡ s ∷ []
lines-line String.[] h = refl
lines-line (String.◌∷◌ c s) h = elim (Bool-cases (is_newline c)) [
  | inl newline ↦ absurd (ground (arith, h, newline))
  | inr other ↦ rw other (ap (onto_first c) (lines-line s (ground (arith, h, other))))
]

lines-append :
    (s t : String) → is_line s ≡ true → lines (append_text s (append_text "\n" t)) ≡ s ∷ lines t
lines-append String.[] t h = rw (nil-append, cons-append, nil-append) refl
lines-append (String.◌∷◌ c s) t h = elim (Bool-cases (is_newline c)) [
  | inl newline ↦ absurd (ground (arith, h, newline))
  | inr other ↦
      rw (cons-append, other) (ap (onto_first c) (lines-append s t (ground (arith, h, other))))
]

lines-lines : (s : String) → All (λ l. is_line l ≡ true) (lines s)
lines-lines String.[] = (refl, tt)
lines-lines (String.◌∷◌ c s) = elim (Bool-cases (is_newline c)) [
  | inl newline ↦ rw newline (refl, lines-lines s)
  | inr other ↦ rw other (onto other (lines s) (lines-lines s))
]
  where
    onto :
        is_newline c ≡ false
        → (ls : List String) → All (λ l. is_line l ≡ true) ls
        → All (λ l. is_line l ≡ true) (onto_first c ls)
    onto other [] h = (ground (arith, other), tt)
    onto other (l ∷ ls) (h, hs) = (ground (arith, other, h), hs)

abbrev pub envelopes : List ArchiveRecord → List String
envelopes = map (λ r. r.envelope_json)

lines-lines_of :
    (first : ArchiveRecord) (more : List ArchiveRecord)
    → All (λ e. is_line e ≡ true) (envelopes (first ∷ more))
    → lines (lines_of first more) ≡ envelopes (first ∷ more)
lines-lines_of first [] (h, hs) = lines-line first.envelope_json h
lines-lines_of first (r ∷ rs) (h, hs) =
    lines-append first.envelope_json (lines_of r rs) h
    ∙ ap (λ ls. first.envelope_json ∷ ls) (lines-lines_of r rs hs)

-- The archive of some records is one object, and its lines are the envelopes, in their order, exactly
-- where no envelope has a newline.
pub write_batch-lines :
    {W : Type 0} (bucket : Bucket W) (prefix : String) (first : ArchiveRecord)
    (more : List ArchiveRecord) (w : W)
    → (key body : String) × (write_batch bucket prefix (first ∷ more) w
        ≡ bucket.put_object key body w)
      × ((lines body ≡ envelopes (first ∷ more))
          ↔ All (λ e. is_line e ≡ true) (envelopes (first ∷ more)))
unfolding write_batch
write_batch-lines bucket prefix first more w = (
  archive_key (without_slashes prefix) (bucket.iso_time w) first,
  lines_of first more,
  refl,
  (
    λ e. subst (All (λ l. is_line l ≡ true)) e (lines-lines (lines_of first more)),
    lines-lines_of first more,
  ),
)
