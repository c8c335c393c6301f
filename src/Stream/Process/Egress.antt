-- ===== src/Stream/Process/Egress.antt =====
-- What one batch of src/processing/stream_processor.py sends where: the frame `processed` and its
-- anomalies, sink by sink.
use aiops_distributed_log.Prelude.{
  ℕ, ◌≡◌, refl, ap, ◌∙◌, List, [], ◌∷◌, String, Option, ok, arith, map, Result-cases, inl, inr,
  Option-cases,
}
use aiops_distributed_log.Floats.{Floats}
use aiops_distributed_log.Stream.{Event, Processed}
use aiops_distributed_log.Stream.Train.{Ml, IsMl}
use aiops_distributed_log.Stream.Process.{Answers, Processor, score_batch, mark_all}
use aiops_distributed_log.Stream.Process.Stages.{rest_ids}

-- The event of a processed row, as far as the row keeps it.
abbrev pub Facts : Type 0
Facts = Option ℕ × String × String × Option ℕ × Option ℕ

abbrev pub event_facts : Event → Facts
event_facts e = (e.event_time, e.component, e.message, e.log_date, e.label_original)

abbrev pub row_facts : Processed → Facts
row_facts r = (r.event_time, r.component, r.message, r.log_date, r.label_original)

facts-mark_all :
    (ids : List String) (now c : ℕ) (scored : List (Event × ℕ))
    → map row_facts (mark_all ids now c scored) ≡ map event_facts (map (λ r. r.0) scored)
unfolding mark_all
facts-mark_all ids now c [] = refl
facts-mark_all ids now c (r ∷ rs) = ground (arith, facts-mark_all (rest_ids ids) now c rs)

module _ (fl : Floats) (ml : Ml) (is : IsMl ml) (show_time : ℕ → String) where
  open ml use {Nlp, Km, vectorize, predict}

  scored-rows :
      (batch : List Event) (self : Processor Nlp Km) (scored : List (Event × ℕ))
      → score_batch fl ml show_time batch self ≡ ok scored
      → map (λ r. r.0) scored ≡ batch
  unfolding score_batch
  scored-rows batch self scored h = elim (Option-cases self.nlp_model) [
    | inl no_nlp ↦ absurd (ground arith)
    | inr (nlp, has_nlp) ↦ elim (Result-cases (vectorize nlp batch)) [
      | inr (e, raised) ↦ absurd (ground arith)
      | inl (vectors, vectorized) ↦ elim (Option-cases self.km_model) [
        | inl no_km ↦ absurd (ground arith)
        | inr (km, has_km) ↦
            is.predict-rows km vectors scored (ground arith)
            ∙ is.vectorize-rows nlp batch vectors vectorized
      ]
    ]
  ]

  -- The frame `processed` of a batch, once training and scoring went through.
  abbrev pub frame : Answers fl.F → Processor Nlp Km → List (Event × ℕ) → List Processed
  frame a self scored = mark_all a.event_ids a.processed_at self.anomaly_cluster scored

  pub facts-frame :
      (a : Answers fl.F) (batch : List Event) (self : Processor Nlp Km) {scored : List (Event × ℕ)}
      → score_batch fl ml show_time batch self ≡ ok scored
      → map row_facts (frame a self scored) ≡ map event_facts batch
  facts-frame a batch self {scored} scoring =
      facts-mark_all a.event_ids a.processed_at self.anomaly_cluster scored
      ∙ ap (map event_facts) (scored-rows batch self scored scoring)
