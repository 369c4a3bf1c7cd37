-- ===== src/BqSink/Archive.antt =====
-- The archive of accepted envelopes in S3: bq-sink/src/archive.ts.
pub mod Lines
use Prim.Native.Char.{code}
use Prim.Native.String.{◌∷◌, ◌++◌ as append_text}
use escld.Prelude.{String, ◌&&◌, ◌==◌, eqb, if◌then◌else◌, List, [], Result, ok}
use escld.Js.Text.{decimal, utf16_take, utf16_drop}
use escld.BqSink.Messages.Batch.{ArchiveRecord}

-- What the archive uses of S3 and of the clock. `put_object` compresses the body.
pub record Bucket (W : Type 0) : Type 0 where
  pub put_object : (key body : String) → W → Result (Unit {0}) × W
  pub iso_time : W → String

-- `prefix.replace(/\/+$/, "")`.
unfoldable pub without_slashes : String → String
without_slashes String.[] = ""
without_slashes (c ∷ s) =
    let rest = without_slashes s in if eqb (code c) 47 && rest == "" then "" else c ∷ rest

unfoldable pub archive_key : (prefix now : String) → ArchiveRecord → String
unfolding utf16_take utf16_drop decimal
archive_key prefix now first =
    append_text (append_text prefix (append_text "/dt=" (append_text (utf16_take 10 now) "/hour=")))
      (append_text (utf16_take 2 (utf16_drop 11 now)) (
        append_text "/" (
          append_text first.topic (
            append_text "-" (
              append_text (decimal first.partition)
                (append_text "-" (append_text first.offset ".json.gz")))))))

abbrev pub lines_of : ArchiveRecord → List ArchiveRecord → String
lines_of first [] = first.envelope_json
lines_of first (List.◌∷◌ r rs) = append_text first.envelope_json (append_text "\n" (lines_of r rs))

unfoldable pub write_batch :
    {W : Type 0} → Bucket W → String → List ArchiveRecord → W → Result (Unit {0}) × W
unfolding without_slashes archive_key
write_batch bucket prefix [] w = (ok tt, w)
write_batch bucket prefix (List.◌∷◌ first more) w =
    bucket.put_object (archive_key (without_slashes prefix) (bucket.iso_time w) first)
      (lines_of first more) w
