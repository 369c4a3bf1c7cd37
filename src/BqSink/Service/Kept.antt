-- ===== src/BqSink/Service/Kept.antt =====
-- What bq-sink keeps of the messages whose offsets it resolves: handleBatch of
-- bq-sink/src/message-handler.ts over the Warehouse of bigquery.ts and the archive of archive.ts.
use escld.Prelude.{
  ◌⊎◌, inl, inr, ◌≢◌, ℕ, suc, refl, append_assoc, String, ◌≡◌, sym, ap, subst, Option, none, some,
  List, [], ◌∷◌, ◌++◌, map, All, concat, All-append, All-map,
}
use escld.Js.Json.{Engine}
use escld.BqSink.Messages.Parse.{InsertRow, KafkaMessage, ParsedMessage, event, dead_letter, row_of}
use escld.BqSink.Messages.Batch.{
  Deps, Payload, Batch, Ending, finished, stopped, threw, out_of_fuel, archive, archive_records,
  parse_all, handle_batch, ArchiveRecord,
}
use escld.BqSink.Messages.Chunks.{IsChunk}
use escld.BqSink.Messages.Writes.{Written, Refused}
use escld.BqSink.Messages.Trace.{handle_batch-Run}
use escld.BqSink.Messages.Runs.{
  Writes, Ended, blocks, Cut, uncut, uncommitted, unbeaten, cut_chunk, cut_block,
}
use escld.BqSink.Archive.{write_batch}
use escld.BqSink.Service.{Cloud, table_name, service_deps}
use escld.BqSink.Service.Inserts.{
  Closed, Documented, insert_events-Closed, insert_dead_letters-Closed,
}
use escld.BqSink.Service.Rows.{
  IsKept, IsKeptRow, insert_events-IsKept, insert_dead_letters-IsKept, IsKept-Closed, events-IsKept,
  dead_letters-IsKept,
}

module _ {W : Type 0} (cloud : Cloud W) (engine : Engine) (archive_prefix : Option String)
    (topic : String) (partition : ℕ) where
  abbrev deps : Deps W
  deps = service_deps cloud engine archive_prefix

  module _ (P : W → Type 0) (closed : Closed cloud P) where
    write_batch-Closed :
        (prefix : String) (records : List ArchiveRecord) (w : W)
        → P w
        → P (write_batch cloud.bucket prefix records w).1
    unfolding write_batch
    write_batch-Closed prefix [] w h = h
    write_batch-Closed prefix (r ∷ rs) w h = closed.put_keeps _ _ w h

    archive-Closed :
        (prefix : Option String) (chunk : List ParsedMessage) (w : W)
        → P w
        → P (
            archive
              (service_deps cloud engine prefix)
              topic
              partition
              (service_deps cloud engine prefix).write_batch
              chunk
              w)
    unfolding archive
    archive-Closed none chunk w h = h
    archive-Closed (some prefix) chunk w h =
        write_batch-Closed prefix (archive_records topic partition chunk) w h

    Written-Closed :
        (chunk : List ParsedMessage) (w w' : W)
        → Written deps topic partition chunk w w'
        → P w
        → P w'
    Written-Closed [] w w' written h = elim written [ ]
    Written-Closed (event o t ty r e ∷ more) w w' (q, w₀, done, archived) h =
        subst P (sym archived) (
          archive-Closed archive_prefix (event o t ty r e ∷ more) w₀ (
            subst P (ap (λ p. p.1) done) (
              insert_events-Closed cloud engine P closed _ (table_name cloud engine t)
                (map row_of (event o t ty r e ∷ more)) w h)))
    Written-Closed (dead_letter o why r ∷ more) w w' done h = subst P (ap (λ p. p.1) done) (
        insert_dead_letters-Closed cloud engine P closed (map row_of (dead_letter o why r ∷ more)) w
          h)

    Refused-Closed :
        (chunk : List ParsedMessage) (w w' : W)
        → Refused deps topic partition chunk w w'
        → P w
        → P w'
    Refused-Closed [] w w' refused h = elim refused [ ]
    Refused-Closed (event o t ty r e ∷ more) w w' done h = subst P (ap (λ p. p.1) done) (
        insert_events-Closed cloud engine P closed _ (table_name cloud engine t)
          (map row_of (event o t ty r e ∷ more)) w h)
    Refused-Closed (dead_letter o why r ∷ more) w w' done h = subst P (ap (λ p. p.1) done) (
        insert_dead_letters-Closed cloud engine P closed (map row_of (dead_letter o why r ∷ more)) w
          h)

    module _ (batch_size : ℕ) (payload : Payload) where
      Ended-Closed :
          (round : ℕ) (ending : Ending) (cut : Cut) (left : List ParsedMessage) (w w' : W)
          → Ended deps topic partition engine batch_size payload round ending cut left w w'
          → P w
          → P w'
      Ended-Closed round finished uncut left w w' (none_left, same) h = subst P (sym same) h
      Ended-Closed round stopped uncut left w w' (unwanted, some_left, same) h =
          subst P (sym same) h
      Ended-Closed round threw uncut left w w' (chunk, rest, order, fair, refused) h =
          Refused-Closed chunk w w' refused h
      Ended-Closed round threw (uncommitted chunk) left w w' (rejected, fair, written) h =
          Written-Closed chunk w w' written h
      Ended-Closed round threw (unbeaten chunk) left w w' (commits, rejected, fair, written) h =
          Written-Closed chunk w w' written h
      Ended-Closed round finished (uncommitted chunk) left w w' ended h = elim ended [ ]
      Ended-Closed round finished (unbeaten chunk) left w w' ended h = elim ended [ ]
      Ended-Closed round stopped (uncommitted chunk) left w w' ended h = elim ended [ ]
      Ended-Closed round stopped (unbeaten chunk) left w w' ended h = elim ended [ ]
      Ended-Closed round out_of_fuel cut left w w' ended h = elim ended [ ]

      Writes-Closed :
          (round : ℕ) (ending : Ending) (cut : Cut) (chunks : List (List ParsedMessage))
          (left : List ParsedMessage) (w w' : W)
          → Writes deps topic partition engine batch_size payload round ending cut chunks left w w'
          → P w
          → P w'
      Writes-Closed round ending cut [] left w w' ended h =
          Ended-Closed round ending cut left w w' ended h
      Writes-Closed round ending cut (chunk ∷ chunks) left w w' (w₁, written, later) h =
          Writes-Closed (suc round) ending cut chunks left w₁ w' later
            (Written-Closed chunk w w₁ written h)

  module _ (batch_size : ℕ) (payload : Payload) where
    Ended-left :
        (round : ℕ) (ending : Ending) (cut : Cut) (left : List ParsedMessage) (w w' : W)
        → Ended deps topic partition engine batch_size payload round ending cut left w w'
        → ((cut ≡ uncut) × (left ≡ [])) ⊎ (ending ≢ finished)
    Ended-left round finished uncut left w w' (none_left, same) = inl (refl, none_left)
    Ended-left round finished (uncommitted chunk) left w w' ended = elim ended [ ]
    Ended-left round finished (unbeaten chunk) left w w' ended = elim ended [ ]
    Ended-left round stopped cut left w w' ended = inr (λ e. cc)
    Ended-left round threw cut left w w' ended = inr (λ e. cc)
    Ended-left round out_of_fuel cut left w w' ended = inr (λ e. cc)

    Writes-left :
        (round : ℕ) (ending : Ending) (cut : Cut) (chunks : List (List ParsedMessage))
        (left : List ParsedMessage) (w w' : W)
        → Writes deps topic partition engine batch_size payload round ending cut chunks left w w'
        → ((cut ≡ uncut) × (left ≡ [])) ⊎ (ending ≢ finished)
    Writes-left round ending cut [] left w w' ended = Ended-left round ending cut left w w' ended
    Writes-left round ending cut (chunk ∷ chunks) left w w' (w₁, written, later) =
        Writes-left (suc round) ending cut chunks left w₁ w' later

  module _ (Holds : String → InsertRow → W → Type 0) (documented : Documented cloud Holds)
      (batch_size : ℕ) where
    Written-IsKept :
        (chunk : List ParsedMessage) (w w' : W)
        → IsChunk engine batch_size chunk
        → Written deps topic partition chunk w w'
        → All (IsKept cloud engine Holds w') chunk
    Written-IsKept [] w w' fair written = elim written [ ]
    Written-IsKept (dead_letter o why r ∷ more) w w' (alike, fair, light) written =
        let held =
          insert_dead_letters-IsKept cloud engine Holds documented
            (map row_of (dead_letter o why r ∷ more)) w w' written in
        (held.0, dead_letters-IsKept cloud engine Holds documented w' o why r more alike held.1)
    Written-IsKept (event o t ty r e ∷ more) w w' (alike, fair, light) (q, w₀, done, archived) =
        let rows = map row_of (event o t ty r e ∷ more) in
        let at : W → Type 0 = λ v. All (IsKept cloud engine Holds v) (event o t ty r e ∷ more) in
        let held : All (IsKeptRow cloud engine Holds (table_name cloud engine t) w₀) rows =
          subst (λ v. All (IsKeptRow cloud engine Holds (table_name cloud engine t) v) rows)
            (ap (λ p. p.1) done)
            (insert_events-IsKept cloud engine Holds documented _ (table_name cloud engine t) rows w
              q (ap (λ p. p.0) done)) in
        subst at (sym archived) (
          All-map
            (λ p k.
              archive-Closed (λ v. IsKept cloud engine Holds v p)
                (IsKept-Closed cloud engine Holds documented p) archive_prefix
                (event o t ty r e ∷ more) w₀ k)
            (event o t ty r e ∷ more)
            (held.0, events-IsKept cloud engine Holds documented w₀ o t ty r e more alike held.1))

    module _ (payload : Payload) where
      Ended-IsKept :
          (round : ℕ) (ending : Ending) (cut : Cut) (left : List ParsedMessage) (w w' : W)
          → Ended deps topic partition engine batch_size payload round ending cut left w w'
          → All (IsKept cloud engine Holds w') (cut_chunk cut)
      Ended-IsKept round ending uncut left w w' ended = tt
      Ended-IsKept round threw (uncommitted chunk) left w w' (rejected, fair, written) =
          Written-IsKept chunk w w' fair written
      Ended-IsKept round threw (unbeaten chunk) left w w' (commits, rejected, fair, written) =
          Written-IsKept chunk w w' fair written
      Ended-IsKept round finished (uncommitted chunk) left w w' ended = elim ended [ ]
      Ended-IsKept round finished (unbeaten chunk) left w w' ended = elim ended [ ]
      Ended-IsKept round stopped (uncommitted chunk) left w w' ended = elim ended [ ]
      Ended-IsKept round stopped (unbeaten chunk) left w w' ended = elim ended [ ]
      Ended-IsKept round out_of_fuel cut left w w' ended = elim ended [ ]

      Writes-IsKept :
          (round : ℕ) (ending : Ending) (cut : Cut) (chunks : List (List ParsedMessage))
          (left : List ParsedMessage) (w w' : W)
          → All (IsChunk engine batch_size) chunks
          → Writes deps topic partition engine batch_size payload round ending cut chunks left w w'
          → All (IsKept cloud engine Holds w') (concat chunks ++ cut_chunk cut)
      Writes-IsKept round ending cut [] left w w' fair ended =
          Ended-IsKept round ending cut left w w' ended
      Writes-IsKept round ending cut (chunk ∷ chunks) left w w' (fair, others)
            (w₁, written, later) =
          subst (All (IsKept cloud engine Holds w'))
            (sym (append_assoc chunk (concat chunks) (cut_chunk cut)))
            (All-append (IsKept cloud engine Holds w') chunk (concat chunks ++ cut_chunk cut)
              (All-map
                (λ p k.
                  Writes-Closed (λ v. IsKept cloud engine Holds v p)
                    (IsKept-Closed cloud engine Holds documented p) batch_size payload (suc round)
                    ending cut chunks left w₁ w' later k)
                chunk (Written-IsKept chunk w w₁ fair written))
              (Writes-IsKept (suc round) ending cut chunks left w₁ w' others later))

-- Where BigQuery and S3 do what they document, every message whose offset the handler resolves is
-- kept when it ends, however it ends: the row of an event is held by the table of its type, or the
-- quarantine table holds a row named after it, and the row of a message that is no event is held by
-- the quarantine table. The resolved messages are a front part of the batch, and the whole batch
-- where the handler finishes. This holds too where Kafka rejects the commit of a chunk or the
-- heartbeat after it, and the handler throws with the offsets of the chunk resolved.
pub handle_batch-IsKept :
    {W : Type 0} (cloud : Cloud W) (engine : Engine) (archive_prefix : Option String)
    (Holds : String → InsertRow → W → Type 0) (topic : String) (partition : ℕ) (clock : ℕ → String)
    (payload : Payload) (batch_size : ℕ) (messages : List KafkaMessage) (b : Batch W)
    → Documented cloud Holds
    → let deps = service_deps cloud engine archive_prefix in
      let run = handle_batch deps topic partition engine clock payload batch_size messages b in
      (chunks : List (List ParsedMessage)) × (cut : Cut) × (left : List ParsedMessage) × (concat
            chunks
          ++ (cut_chunk cut ++ left)
        ≡ parse_all deps topic partition engine clock 0 messages)
      × (run.1.effects ≡ b.effects ++ (blocks chunks ++ cut_block cut))
      × All (IsKept cloud engine Holds run.1.world) (concat chunks ++ cut_chunk cut)
      × (((cut ≡ uncut) × (left ≡ [])) ⊎ (run.0 ≢ finished))
handle_batch-IsKept cloud engine archive_prefix Holds topic partition clock payload batch_size
      messages b documented =
    let deps = service_deps cloud engine archive_prefix in
    let r = handle_batch-Run deps topic partition engine clock payload batch_size messages b in
    (
      r.chunks,
      r.cut,
      r.left,
      r.order,
      r.log,
      Writes-IsKept cloud engine archive_prefix topic partition Holds documented batch_size payload
          0 _ r.cut r.chunks r.left _ _ r.fair r.writes,
      Writes-left cloud engine archive_prefix topic partition batch_size payload 0 _ r.cut r.chunks
          r.left _ _ r.writes,
    )
