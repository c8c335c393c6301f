-- ===== src/Stream/Job.antt =====
-- src/processing/stream_processor.py, `main`: the query hands every micro-batch of Kafka values, as
-- `read_kafka_stream` makes them a frame, to the one `BatchProcessor`.
mod Tests
use aiops_distributed_log.Prelude.{
  ℕ, ◌+◌, ◌≡◌, refl, ◌⊎◌, inl, inr, true, false, List, [], ◌∷◌, ◌++◌, String, ok, arith, nat_beq,
  length, map, Bool-cases,
}
use aiops_distributed_log.Floats.{Floats}
use aiops_distributed_log.Stream.{Event, Processed}
use aiops_distributed_log.Stream.Enrich.{Parsers, enrich}
use aiops_distributed_log.Stream.Train.{Ml}
use aiops_distributed_log.Stream.Process.{
  Sinks, Answers, Processor, new_processor, process, ensure_trained, score_batch,
}
use aiops_distributed_log.Stream.Process.Stages.{done}
use aiops_distributed_log.Stream.Process.Egress.{row_facts, event_facts}

-- The values that one trigger takes from the topic, and what the surroundings answer meanwhile.
pub record MicroBatch (F : Type 0) : Type 1 where
  pub answers : Answers F
  pub values : List String

module _ (fl : Floats) (ml : Ml) (show_time : ℕ → String) (ps : Parsers) where
  open fl use {F}
  open ml use {Nlp, Km}

  -- `foreachBatch(processor.process)`, from the batch with the number `batch_id` on.
  unfoldable pub run_query :
      ℕ → List (MicroBatch F) → Processor Nlp Km → Sinks F → Processor Nlp Km × Sinks F
  run_query batch_id [] self s = (self, s)
  run_query batch_id (b ∷ bs) self s =
      let (self', s') = process fl ml show_time b.answers batch_id (enrich ps b.values) self s in
      run_query (batch_id + 1) bs self' s'

  -- The query has no end of its own; this is its state after some batches.
  unfoldable pub main : List (MicroBatch F) → Sinks F → Processor Nlp Km × Sinks F
  unfolding run_query
  main bs s = run_query 0 bs new_processor s

  abbrev pub all_values : List (MicroBatch F) → List String
  all_values [] = []
  all_values (b ∷ bs) = b.values ++ all_values bs

  -- A batch that has events finds or trains a model, is scored, and its write to Delta Lake returns;
  -- `self` is the processor as it stands before the batch.
  pub data GoesWell : List (MicroBatch F) → Processor Nlp Km → Type 1 where
    end : (self : Processor Nlp Km) → GoesWell [] self
    idle :
        (b : MicroBatch F) (bs : List (MicroBatch F)) (self : Processor Nlp Km)
        → length (enrich ps b.values) ≡ 0
        → GoesWell bs self
        → GoesWell (b ∷ bs) self
    written :
        (b : MicroBatch F) (bs : List (MicroBatch F)) (self self' : Processor Nlp Km)
        (scored : List (Event × ℕ))
        → nat_beq (length (enrich ps b.values)) 0 ≡ false
        → ensure_trained fl ml show_time (enrich ps b.values) self ≡ ok self'
        → score_batch fl ml show_time (enrich ps b.values) self' ≡ ok scored
        → b.answers.delta ≡ done
        → GoesWell bs self'
        → GoesWell (b ∷ bs) self

  pub enrich-append : (xs ys : List String) → enrich ps (xs ++ ys) ≡ enrich ps xs ++ enrich ps ys
  unfolding enrich
  enrich-append [] ys = refl
  enrich-append (x ∷ xs) ys = ground (arith, enrich-append xs ys)

  abbrev Written : List (MicroBatch F) → Sinks F → Sinks F → Type 0
  Written bs s s' =
      map row_facts s'.processed_logs
      ≡ map row_facts s.processed_logs ++ map event_facts (enrich ps (all_values bs))
