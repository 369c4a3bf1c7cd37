-- ===== src/Analytics/Processor/Offsets.antt =====
-- The loop of `handleBatch` in analytics/src/processor.ts, as a prefix of the batch.
use escld.Prelude.{
  ℕ, suc, String, ◌≡◌, refl, sym, ap, subst, inl, inr, true, false, List, [], ◌∷◌, ◌++◌, append-nil,
  append_assoc, Bool-cases, Result, ok, err, Result-cases,
}
use escld.Js.Json.{Engine}
use escld.Analytics.Redis.{Redis}
use escld.Analytics.Processor.{
  process_message, Incoming, KafkaEffect, resolve_offset, commit_offsets, beat, Stop, returned,
  stopped, threw, Consumer, EachBatch, settle_batch, raw_of, handle_records,
}

module _ {S : Type 0} (redis : Redis S) (engine : Engine) (payload : EachBatch)
    (clock : ℕ → String) where
  -- What the i-th message does to the server.
  abbrev pub step : ℕ → Incoming → S → Result (Unit {0}) × S
  step i m = process_message redis engine (clock i) (raw_of m.value)

  abbrev pub served : ℕ → List Incoming → S → S
  served i [] s = s
  served i (m ∷ ms) s = served (suc i) ms (step i m s).1

  -- The position after `done`, where `done` starts at i.
  abbrev pub index : ℕ → List Incoming → ℕ
  index i [] = i
  index i (m ∷ done) = index (suc i) done

  -- Every message is processed without a throw.
  abbrev pub AllReturn : ℕ → List Incoming → S → Type 0
  AllReturn i [] s = Unit
  AllReturn i (m ∷ ms) s = ((step i m s).0 ≡ ok tt) × AllReturn (suc i) ms (step i m s).1

  abbrev pub AllAlive : ℕ → List Incoming → Type 0
  AllAlive i [] = Unit
  AllAlive i (m ∷ ms) = (payload.is_wanted i ≡ true) × AllAlive (suc i) ms

  abbrev pub resolutions : List Incoming → List KafkaEffect
  resolutions [] = []
  resolutions (m ∷ ms) = resolve_offset m.offset ∷ resolutions ms

  -- How a batch ends, by what was resolved: all of it, then committed; all of it, where Kafka rejects
  -- the commit, or the heartbeat after it; a prefix `done` before the batch was revoked; or a prefix
  -- before the message that threw, whose changes to the server stay.
  pub data Handled (i : ℕ) (ms : List Incoming) (c : Consumer S) : Stop × Consumer S → Type 0 where
    committed :
        AllAlive i ms
        → AllReturn i ms c.server
        → payload.commits ≡ true
        → payload.beats ≡ true
        → Handled i ms c (
          returned,
          record {
            server = served i ms c.server;
            effects = c.effects ++ (resolutions ms ++ commit_offsets ∷ beat ∷ []);
          },
        )
    uncommitted :
        AllAlive i ms
        → AllReturn i ms c.server
        → payload.commits ≡ false
        → Handled i ms c
            (threw, record { server = served i ms c.server; effects = c.effects ++ resolutions ms })
    unbeaten :
        AllAlive i ms
        → AllReturn i ms c.server
        → payload.commits ≡ true
        → payload.beats ≡ false
        → Handled i ms c (
          threw,
          record {
            server = served i ms c.server;
            effects = c.effects ++ (resolutions ms ++ commit_offsets ∷ []);
          },
        )
    revoked :
        (done : List Incoming) (m : Incoming) (rest : List Incoming)
        → ms ≡ done ++ m ∷ rest
        → AllAlive i done
        → AllReturn i done c.server
        → payload.is_wanted (index i done) ≡ false
        → Handled i ms c (
          stopped,
          record { server = served i done c.server; effects = c.effects ++ resolutions done },
        )
    failed :
        (done : List Incoming) (m : Incoming) (rest : List Incoming)
        → ms ≡ done ++ m ∷ rest
        → AllAlive i (done ++ m ∷ [])
        → AllReturn i done c.server
        → (step (index i done) m (served i done c.server)).0 ≡ err
        → Handled i ms c (
          threw,
          record {
            server = (step (index i done) m (served i done c.server)).1;
            effects = c.effects ++ resolutions done;
          },
        )

  -- One more message in front.
  Handled-cons :
      (i : ℕ) (m : Incoming) (ms : List Incoming) (c : Consumer S) (out : Stop × Consumer S)
      → payload.is_wanted i ≡ true
      → (step i m c.server).0 ≡ ok tt
      → Handled
          (suc i)
          ms
          (record {
            server = (step i m c.server).1;
            effects = c.effects ++ resolve_offset m.offset ∷ [];
          })
          out
      → Handled i (m ∷ ms) c out
  Handled-cons i m ms c out up fine (committed alive_all fine_all commits beats) =
      subst
        (λ es.
          Handled i (m ∷ ms) c
            (returned, record { server = served i (m ∷ ms) c.server; effects = es }))
        (sym (
          append_assoc c.effects (resolve_offset m.offset ∷ [])
            (resolutions ms ++ commit_offsets ∷ beat ∷ [])))
        (committed (up, alive_all) (fine, fine_all) commits beats)
  Handled-cons i m ms c out up fine (uncommitted alive_all fine_all rejected) =
      subst
        (λ es.
          Handled i (m ∷ ms) c
            (threw, record { server = served i (m ∷ ms) c.server; effects = es }))
        (sym (append_assoc c.effects (resolve_offset m.offset ∷ []) (resolutions ms)))
        (uncommitted (up, alive_all) (fine, fine_all) rejected)
  Handled-cons i m ms c out up fine (unbeaten alive_all fine_all commits rejected) =
      subst
        (λ es.
          Handled i (m ∷ ms) c
            (threw, record { server = served i (m ∷ ms) c.server; effects = es }))
        (sym (
          append_assoc c.effects (resolve_offset m.offset ∷ [])
            (resolutions ms ++ commit_offsets ∷ [])))
        (unbeaten (up, alive_all) (fine, fine_all) commits rejected)
  Handled-cons i m ms c out up fine (revoked done n rest split alive_all fine_all down) =
      subst
        (λ es.
          Handled i (m ∷ ms) c
            (stopped, record { server = served i (m ∷ done) c.server; effects = es }))
        (sym (append_assoc c.effects (resolve_offset m.offset ∷ []) (resolutions done)))
        (revoked (m ∷ done) n rest (ap (λ x. m ∷ x) split) (up, alive_all) (fine, fine_all) down)
  Handled-cons i m ms c out up fine (failed done n rest split alive_all fine_all bad) =
      subst
        (λ es. Handled i (m ∷ ms) c (
          threw,
          record {
            server = (step (index i (m ∷ done)) n (served i (m ∷ done) c.server)).1;
            effects = es;
          },
        ))
        (sym (append_assoc c.effects (resolve_offset m.offset ∷ []) (resolutions done)))
        (failed (m ∷ done) n rest (ap (λ x. m ∷ x) split) (up, alive_all) (fine, fine_all) bad)

  settle_batch-uncommitted :
      (c : Consumer S) → payload.commits ≡ false → settle_batch payload c ≡ (threw, c)
  unfolding settle_batch
  settle_batch-uncommitted c rejected = rw rejected refl

  settle_batch-unbeaten :
      (c : Consumer S)
      → payload.commits ≡ true
      → payload.beats ≡ false
      → settle_batch payload c ≡ (threw, record c { effects = c.effects ++ commit_offsets ∷ [] })
  unfolding settle_batch
  settle_batch-unbeaten c commits rejected = rw (commits, rejected) refl

  settle_batch-committed :
      (c : Consumer S)
      → payload.commits ≡ true
      → payload.beats ≡ true
      → settle_batch payload c
        ≡ (returned, record c { effects = c.effects ++ commit_offsets ∷ beat ∷ [] })
  unfolding settle_batch
  settle_batch-committed c commits beats = rw (commits, beats) refl

  -- The batch resolves the offsets of a prefix of its messages, in their order: of all of them, then
  -- it commits and beats, and throws where Kafka rejects one of the two; of those before the first one
  -- that it finds no longer wanted, where it returns; or of those before the first one that throws.
  pub handle_records-Handled :
      (i : ℕ) (ms : List Incoming) (c : Consumer S)
      → Handled i ms c (handle_records redis engine payload clock i ms c)
  unfolding handle_records
  handle_records-Handled i [] c = elim (Bool-cases payload.commits) [
    | inr rejected ↦ subst (Handled i [] c) (sym (settle_batch-uncommitted c rejected)) (
        subst (λ es. Handled i [] c (threw, record { server = c.server; effects = es }))
          (append-nil c.effects) (uncommitted tt tt rejected))
    | inl commits ↦ elim (Bool-cases payload.beats) [
      | inr rejected ↦
          subst (Handled i [] c) (sym (settle_batch-unbeaten c commits rejected))
            (unbeaten tt tt commits rejected)
      | inl beats ↦
          subst (Handled i [] c) (sym (settle_batch-committed c commits beats))
            (committed tt tt commits beats)
    ]
  ]
  handle_records-Handled i (m ∷ ms) c = elim (Bool-cases (payload.is_wanted i)) [
    | inr down ↦ rw down (
        subst (λ es. Handled i (m ∷ ms) c (stopped, record { server = c.server; effects = es }))
          (append-nil c.effects) (revoked [] m ms refl tt tt down))
    | inl up ↦ elim (Result-cases (step i m c.server).0) [
      | inl (tt, fine) ↦
          rw (up, fine)
            (Handled-cons i m ms c _ up fine (
              handle_records-Handled (suc i) ms (record {
                server = (step i m c.server).1;
                effects = c.effects ++ resolve_offset m.offset ∷ [];
              })))
      | inr bad ↦
          rw (up, bad)
            (subst
              (λ es.
                Handled i (m ∷ ms) c
                  (threw, record { server = (step i m c.server).1; effects = es }))
              (append-nil c.effects) (failed [] m ms refl (up, tt) tt bad))
    ]
  ]
