-- ===== src/Stream/Process/Model.antt =====
-- The model of the `BatchProcessor` of src/processing/stream_processor.py over a run of batches.
use aiops_distributed_log.Prelude.{
  ℕ, ◌≡◌, refl, ◌⊎◌, inl, inr, true, List, [], ◌∷◌, String, some, ok, arith, nat_beq, length,
  Bool-cases, Result-cases, ap, ◌∙◌,
}
use aiops_distributed_log.Floats.{Floats}
use aiops_distributed_log.Stream.{Event}
use aiops_distributed_log.Stream.Train.{Ml, train_model}
use aiops_distributed_log.Stream.Process.{
  Sinks, Answers, Processor, new_processor, process, ensure_trained, score_batch,
}

-- A micro-batch, with its number and what the surroundings answer.
pub record Batch (F : Type 0) : Type 1 where
  pub answers : Answers F
  pub batch_id : ℕ
  pub events : List Event

module _ (fl : Floats) (ml : Ml) (show_time : ℕ → String) where
  open ml use {Nlp, Km}

  -- The processor of a job and its sinks, batch after batch.
  unfoldable pub process_all :
      List (Batch fl.F) → Processor Nlp Km → Sinks fl.F → Processor Nlp Km × Sinks fl.F
  process_all [] self s = (self, s)
  process_all (b ∷ bs) self s =
      let (self', s') = process fl ml show_time b.answers b.batch_id b.events self s in
      process_all bs self' s'

  abbrev trained_with : Nlp → Km → ℕ → Processor Nlp Km
  trained_with nlp km c = record {
    nlp_model = some nlp;
    km_model = some km;
    anomaly_cluster = c;
    trained = true;
  }

  -- The processor is as new, or holds exactly what the training on some batch returned.
  abbrev pub IsSound : Processor Nlp Km → Type 0
  IsSound self =
      (self ≡ new_processor)
      ⊎ ((batch : List Event) × (nlp : Nlp) × (km : Km) × (c : ℕ) × (train_model ml batch
            ≡ ok (nlp, km, c))
          × (self ≡ record {
            nlp_model = some nlp;
            km_model = some km;
            anomaly_cluster = c;
            trained = true;
          }))

  ensure_trained-IsSound :
      (batch : List Event) {self self' : Processor Nlp Km}
      → IsSound self
      → ensure_trained fl ml show_time batch self ≡ ok self'
      → IsSound self'
  unfolding ensure_trained
  ensure_trained-IsSound batch (inr (b, nlp, km, c, fit, e)) h =
      inr (b, nlp, km, c, fit, ground arith)
  ensure_trained-IsSound batch (inl e) h = elim (Result-cases (train_model ml batch)) [
    | inl ((nlp, km, c), fit) ↦ inr (batch, nlp, km, c, fit, ground arith)
    | inr (x, raised) ↦ absurd (ground arith)
  ]

  after :
      (b : Batch fl.F) (self : Processor Nlp Km) (s : Sinks fl.F)
      → let self' = (process fl ml show_time b.answers b.batch_id b.events self s).0 in
        (self' ≡ self) ⊎ (ensure_trained fl ml show_time b.events self ≡ ok self')
  unfolding process
  after b self s = elim (Bool-cases (nat_beq (length b.events) 0)) [
    | inl empty ↦ inl (ground arith)
    | inr rows ↦ elim (Result-cases (ensure_trained fl ml show_time b.events self)) [
      | inr (e, raised) ↦ inl (ground arith)
      | inl (self', went) ↦ inr (
          rw went (elim (Result-cases (score_batch fl ml show_time b.events self')) [
            | inr (e, unscored) ↦ ground arith
            | inl (scored, e) ↦ ground arith
          ]))
    ]
  ]

  -- Through any run of batches, with any failures, the processor is either still without a model
  -- or holds the two models and the cluster of one and the same successful training.
  pub process_all-IsSound :
      (bs : List (Batch fl.F)) (self : Processor Nlp Km) (s : Sinks fl.F)
      → IsSound self
      → IsSound (process_all bs self s).0
  unfolding process_all
  process_all-IsSound [] self s h = h
  process_all-IsSound (b ∷ bs) self s h =
      let (self', s') = process fl ml show_time b.answers b.batch_id b.events self s in
      process_all-IsSound bs self' s' (elim (after b self s) [
        | inl same ↦ rw same h
        | inr went ↦ ensure_trained-IsSound b.events h went
      ])

  kept :
      (b : Batch fl.F) (self : Processor Nlp Km) (s : Sinks fl.F)
      → self.trained ≡ true
      → (process fl ml show_time b.answers b.batch_id b.events self s).0 ≡ self
  unfolding ensure_trained
  kept b self s h = elim (after b self s) [ inl same ↦ same | inr went ↦ ground arith ]

  -- A trained processor is never trained again: its models and its anomaly cluster stay.
  pub process_all-trained :
      (bs : List (Batch fl.F)) (self : Processor Nlp Km) (s : Sinks fl.F)
      → self.trained ≡ true
      → (process_all bs self s).0 ≡ self
  unfolding process_all
  process_all-trained [] self s h = refl
  process_all-trained (b ∷ bs) self s h =
      let s' = (process fl ml show_time b.answers b.batch_id b.events self s).1 in
      ap (λ x. (process_all bs x s').0) (kept b self s h) ∙ process_all-trained bs self s' h
