-- ===== src/Worker/Uploads/Turns.antt =====
-- What one turn of an upload of worker/src/storage.ts leaves in the bucket.
use escld.Prelude.{
  ℕ, zero, suc, String, ◌≡◌, refl, ap, subst, ◌≢◌, ◌⊎◌, inl, inr, true, false, arith, ◌==◌, eq_iff,
  Bool-cases, Result, ok, err,
}
use Prim.Native.String.{◌++◌ as append_text}
use text.Mathlib.TextLemmas.{append_cancel_left}
use escld.Worker.Storage.{S3, content_type, key_in, path_in}
use escld.Worker.Uploads.{
  Task, waiting, holding, uploaded, gave_up, is_uploaded, retry, after_read, after_put, turn,
  turns_of,
}

-- What S3 documents, where `Holds key type body w` says that the bucket holds this object of that
-- content type under the key: a put that succeeds stores it, and an object stays until its key is put
-- again, which may replace it.
pub record IsStore {W Body : Type 0} (s3 : S3 W Body)
    (Holds : (key type : String) → Body → W → Type 0) : Type 0 where
  pub puts :
      (key type : String) (body : Body) (w : W)
      → (s3.put_object key body type w).0 ≡ ok tt
      → Holds key type body (s3.put_object key body type w).1
  pub put_keeps :
      (key type : String) (body : Body) (key' type' : String) (body' : Body) (w : W)
      → Holds key type body w
      → Holds key type body (s3.put_object key' body' type' w).1
        ⊎ ((key' ≡ key) × Holds key type' body' (s3.put_object key' body' type' w).1)
  pub read_keeps :
      (key type : String) (body : Body) (path : String) (w : W)
      → Holds key type body w
      → Holds key type body (s3.read_file path w).1

-- The content type of a file with this extension.
abbrev pub Suits : (extension type : String) → Type 0
Suits extension type =
    ((extension ≡ ".m3u8") × (type ≡ "application/vnd.apple.mpegurl"))
    ⊎ ((extension ≡ ".ts") × (type ≡ "video/MP2T"))
    ⊎ ((extension ≢ ".m3u8") × (extension ≢ ".ts") × (type ≡ "application/octet-stream"))

content_type-Suits : (extension : String) → Suits extension (content_type extension)
content_type-Suits extension = elim (Bool-cases (extension == ".m3u8")) [
  | inl playlist ↦ rw playlist (inl ((eq_iff extension ".m3u8").0 playlist, refl))
  | inr other ↦ elim (Bool-cases (extension == ".ts")) [
    | inl segment ↦ rw (other, segment) (inr (inl ((eq_iff extension ".ts").0 segment, refl)))
    | inr neither ↦
        rw (other, neither) (inr (inr (unequal ".m3u8" other, unequal ".ts" neither, refl)))
  ]
]
  where
    unequal : (b : String) → (extension == b) ≡ false → extension ≢ b
    unequal b h e = ground (arith, eq_iff extension b)

module _ {W Body : Type 0} (s3 : S3 W Body) (Holds : (key type : String) → Body → W → Type 0)
    (local_dir s3_prefix : String) where
  -- A read of the file gave this body.
  abbrev pub ReadFrom : String → Body → Type 0
  ReadFrom file body = (v : W) × ((s3.read_file (path_in local_dir file) v).0 ≡ ok body)

  -- The bucket holds what was read from the file, with the content type of its extension.
  abbrev pub HoldsFile : W → String → Type 0
  HoldsFile w file =
      (body : Body) × (type : String) × Suits (s3.extension file) type
      × ReadFrom file body
      × Holds (key_in s3_prefix file) type body w

module _ {W Body : Type 0} (s3 : S3 W Body) (Holds : (key type : String) → Body → W → Type 0)
    (store : IsStore s3 Holds) (local_dir s3_prefix : String) where
  abbrev Stored : W → String → Type 0
  Stored = HoldsFile s3 Holds local_dir s3_prefix

  -- An upload that is done is in the bucket, and one that was read holds what was read.
  abbrev pub IsBacked : W → String × Task Body → Type 0
  IsBacked w (file, uploaded) = Stored w file
  IsBacked w (file, holding left body) = ReadFrom s3 Holds local_dir s3_prefix file body
  IsBacked w (file, waiting left) = Unit
  IsBacked w (file, gave_up) = Unit

  pub IsBacked-uploaded :
      (file : String) (task : Task Body) (w : W)
      → is_uploaded task ≡ true
      → IsBacked w (file, task)
      → Stored w file
  IsBacked-uploaded file uploaded w e h = h
  IsBacked-uploaded file (holding left body) w e h = absurd (ground arith)
  IsBacked-uploaded file (waiting left) w e h = absurd (ground arith)
  IsBacked-uploaded file gave_up w e h = absurd (ground arith)

  same_file : (f g : String) → key_in s3_prefix f ≡ key_in s3_prefix g → f ≡ g
  same_file f g e =
      append_cancel_left "/" f g
        (append_cancel_left s3_prefix (append_text "/" f) (append_text "/" g) e)

  retry-IsBacked : (left : ℕ) (w : W) (file : String) → IsBacked w (file, retry left)
  retry-IsBacked zero w file = tt
  retry-IsBacked (suc left) w file = tt

  pub turn-HoldsFile :
      (file other : String) (task : Task Body) (w : W)
      → IsBacked w (file, task)
      → Stored w other
      → Stored (turn s3 local_dir s3_prefix file task w).1 other
  unfolding turn
  turn-HoldsFile file other uploaded w own h = h
  turn-HoldsFile file other gave_up w own h = h
  turn-HoldsFile file other (holding left body) w own (b, type, suits, read, held) =
      by_put (s3.put_object (key_in s3_prefix file) body (content_type (s3.extension file)) w)
        (elim (store.put_keeps (key_in s3_prefix other) type b (key_in s3_prefix file)
          (content_type (s3.extension file)) body w held) [
            | inl kept ↦ (b, type, suits, read, kept)
            | inr (same, put) ↦
                let e = same_file file other same in
                (
                  body,
                  content_type (s3.extension file),
                  subst (λ f. Suits (s3.extension f) (content_type (s3.extension file))) e
                      (content_type-Suits (s3.extension file)),
                  subst (λ f. ReadFrom s3 Holds local_dir s3_prefix f body) e own,
                  put,
                )
          ])
    where
      by_put :
          (q : Result (Unit {0}) × W)
          → Stored q.1 other
          → Stored (after_put s3 local_dir s3_prefix left q).1 other
      by_put (ok u, w') k = k
      by_put (err, w') k = k
  turn-HoldsFile file other (waiting left) w own (b, type, suits, read, held) =
      elim (Bool-cases (s3.aborted w)) [
        | inl gone ↦ rw gone (b, type, suits, read, held)
        | inr runs ↦ rw runs (
            by_read (s3.read_file (path_in local_dir file) w)
              (b, type, suits, read, store.read_keeps _ _ b (path_in local_dir file) w held))
      ]
    where
      by_read :
          (q : Result Body × W)
          → Stored q.1 other
          → Stored (after_read s3 local_dir s3_prefix left q).1 other
      by_read (ok b', w') k = k
      by_read (err, w') k = k

  pub turn-IsBacked :
      (file : String) (task : Task Body) (w : W)
      → IsBacked w (file, task)
      → IsBacked
          (turn s3 local_dir s3_prefix file task w).1
          (file, (turn s3 local_dir s3_prefix file task w).0)
  unfolding turn
  turn-IsBacked file uploaded w h = h
  turn-IsBacked file gave_up w h = h
  turn-IsBacked file (holding left body) w h =
      by_put (s3.put_object (key_in s3_prefix file) body (content_type (s3.extension file)) w) (λ e.
        (
          body,
          content_type (s3.extension file),
          content_type-Suits (s3.extension file),
          h,
          store.puts (key_in s3_prefix file) (content_type (s3.extension file)) body w e,
        ))
    where
      by_put :
          (q : Result (Unit {0}) × W)
          → (q.0 ≡ ok tt → Stored q.1 file)
          → IsBacked
              (after_put s3 local_dir s3_prefix left q).1
              (file, (after_put s3 local_dir s3_prefix left q).0)
      by_put (ok u, w') k = k refl
      by_put (err, w') k = retry-IsBacked left w' file
  turn-IsBacked file (waiting left) w h = elim (Bool-cases (s3.aborted w)) [
    | inl gone ↦ rw gone tt
    | inr runs ↦ rw runs (by_read (s3.read_file (path_in local_dir file) w) refl)
  ]
    where
      by_read :
          (q : Result Body × W)
          → s3.read_file (path_in local_dir file) w ≡ q
          → IsBacked
              (after_read s3 local_dir s3_prefix left q).1
              (file, (after_read s3 local_dir s3_prefix left q).0)
      by_read (ok b, w') e = (w, ap (λ p. p.0) e)
      by_read (err, w') e = retry-IsBacked left w' file

  -- What one upload does keeps the others.
  pub IsBacked-moves :
      (w w' : W) (t : String × Task Body)
      → ((other : String) → Stored w other → Stored w' other)
      → IsBacked w t
      → IsBacked w' t
  IsBacked-moves w w' (other, uploaded) keeps h = keeps other h
  IsBacked-moves w w' (other, holding left body) keeps h = h
  IsBacked-moves w w' (other, waiting left) keeps h = tt
  IsBacked-moves w w' (other, gave_up) keeps h = tt

  pub turn-others :
      (file : String) (task : Task Body) (w : W) (t : String × Task Body)
      → IsBacked w (file, task)
      → IsBacked w t
      → IsBacked (turn s3 local_dir s3_prefix file task w).1 t
  turn-others file task w t own =
      IsBacked-moves w _ t (λ other. turn-HoldsFile file other task w own)

  pub turns_of-IsBacked :
      (fuel : ℕ) (file : String) (task : Task Body) (w : W)
      → IsBacked w (file, task)
      → IsBacked
          (turns_of s3 local_dir s3_prefix fuel file task w).1
          (file, (turns_of s3 local_dir s3_prefix fuel file task w).0)
  unfolding turns_of
  turns_of-IsBacked zero file task w h = h
  turns_of-IsBacked (suc fuel) file task w h =
      turns_of-IsBacked fuel file _ _ (turn-IsBacked file task w h)

  pub turns_of-HoldsFile :
      (fuel : ℕ) (file other : String) (task : Task Body) (w : W)
      → IsBacked w (file, task)
      → Stored w other
      → Stored (turns_of s3 local_dir s3_prefix fuel file task w).1 other
  unfolding turns_of
  turns_of-HoldsFile zero file other task w own h = h
  turns_of-HoldsFile (suc fuel) file other task w own h =
      turns_of-HoldsFile fuel file other _ _ (turn-IsBacked file task w own)
        (turn-HoldsFile file other task w own h)

  pub IsBacked-after :
      (fuel : ℕ) (file : String) (task : Task Body) (w : W) (t : String × Task Body)
      → IsBacked w (file, task)
      → IsBacked w t
      → IsBacked (turns_of s3 local_dir s3_prefix fuel file task w).1 t
  IsBacked-after fuel file task w t own =
      IsBacked-moves w _ t (λ other. turns_of-HoldsFile fuel file other task w own)
