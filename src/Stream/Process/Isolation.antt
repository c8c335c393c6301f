-- ===== src/Stream/Process/Isolation.antt =====
-- The sinks of `process`, src/processing/stream_processor.py, fail one by one.
use aiops_distributed_log.Prelude.{
  ℕ, ◌≡◌, List, String, arith, nat_beq, length, Bool-cases, Result-cases, inl, inr,
}
use aiops_distributed_log.Floats.{Floats}
use aiops_distributed_log.Stream.{Event, Processed}
use aiops_distributed_log.Stream.Train.{Ml}
use aiops_distributed_log.Stream.Process.{
  Write, Jdbc, KafkaAlert, Sinks, Answers, Processor, process, ensure_trained, score_batch,
  write_all,
}

module _ (fl : Floats) (ml : Ml) (show_time : ℕ → String) where
  open ml use {Nlp, Km}

  -- The answers with other outcomes of the three writes that Spark makes.
  abbrev pub with_writes : Write Processed → Write KafkaAlert → Jdbc → Answers fl.F → Answers fl.F
  with_writes delta kafka jdbc a = record a { delta = delta; kafka = kafka; jdbc = jdbc }

  -- Whatever the writes to Delta Lake, to Kafka and over JDBC do, the rows in the three other
  -- tables and the state of the processor come out the same.
  pub process_isolated :
      (delta : Write Processed) (kafka : Write KafkaAlert) (jdbc : Jdbc) (a : Answers fl.F)
      (batch_id : ℕ) (batch : List Event) (self : Processor Nlp Km) (s : Sinks fl.F)
      → let one = process fl ml show_time a batch_id batch self s in
        let other =
          process fl ml show_time (with_writes delta kafka jdbc a) batch_id batch self s in
        (one.0 ≡ other.0)
        × (one.1.anomaly_alerts ≡ other.1.anomaly_alerts)
        × (one.1.component_health ≡ other.1.component_health)
        × (one.1.model_metrics ≡ other.1.model_metrics)
  unfolding process write_all
  process_isolated delta kafka jdbc a batch_id batch self s =
      elim (Bool-cases (nat_beq (length batch) 0)) [
        | inl empty ↦ ground arith
        | inr rows ↦ elim (Result-cases (ensure_trained fl ml show_time batch self)) [
          | inr (e, untrained) ↦ ground arith
          | inl (self', trained) ↦ elim (Result-cases (score_batch fl ml show_time batch self')) [
            | inr (e, unscored) ↦ ground arith
            | inl (scored, went) ↦ ground arith
          ]
        ]
      ]
