-- ===== src/Stream/Process/Tests.antt =====
-- Runs of whole batches on the concrete model.
use aiops_distributed_log.Prelude.{
  ℕ, ◌≡◌, refl, true, false, List, [], ◌∷◌, none, some, string_eq, inl,
}
use aiops_distributed_log.Floats.Fixed.{fixed}
use aiops_distributed_log.Tables.{group_by}
use aiops_distributed_log.Stream.{Processed}
use aiops_distributed_log.Stream.Process.{Processor, new_processor, write_postgres}
use aiops_distributed_log.Stream.Process.Model.{Batch, process_all, IsSound, process_all-IsSound}
use mathlib.Core.List.Perm
use mathlib.Core.List.{Perm}
use aiops_distributed_log.Stream.Tests.{batch, toy, show_time, answers, empty_sinks, r0}

abbrev trained : Processor (Unit {0}) (Unit {0})
trained = record { nlp_model = some tt; km_model = some tt; anomaly_cluster = 1; trained = true }

abbrev two_batches : List (Batch ℕ)
two_batches =
    record { answers = answers []; batch_id = 0; events = batch }
    ∷ record { answers = answers (false ∷ []); batch_id = 1; events = [] }
    ∷ []

process_all-IsSound_example :
    IsSound fixed toy show_time
      (process_all fixed toy show_time two_batches new_processor empty_sinks).0
process_all-IsSound_example =
    process_all-IsSound fixed toy show_time two_batches new_processor empty_sinks (inl refl)

abbrev undated : Processed
undated = record r0 { log_date = none }

undated_spoils : write_postgres (record { fails = false; partial = [] }) (r0 ∷ undated ∷ []) [] ≡ []
unfolding write_postgres group_by
undated_spoils = refl
