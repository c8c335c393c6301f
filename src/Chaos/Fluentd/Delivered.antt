-- ===== src/Chaos/Fluentd/Delivered.antt =====
-- The scenario of chaos/scenarios/fluentd_crash.py on a broker: what its report says of the topic.
use mathlib.Core.Path.{subst}
use aiops_distributed_log.Prelude.{
  ℕ, ◌+◌, ◌<◌, ◌≡◌, true, List, some, pos, All, sum_by, ◌-◌, gain, sym, ◌∙◌, ap, arith,
}
use aiops_distributed_log.Chaos.Host.{Host, IsHost, succeeded}
use aiops_distributed_log.Chaos.Fluentd.{get_kafka_offset, run, Outcome, offset_command}
use aiops_distributed_log.Chaos.Text.Numeral.{value}
use aiops_distributed_log.Chaos.Fluentd.Offsets.{
  Partition, IsPartition, printed, get_kafka_offset_lem,
}
use aiops_distributed_log.Chaos.Fluentd.Recovery.{recovery-passed}

-- The number of messages that a topic has ever had.
abbrev pub messages : List Partition → ℕ
messages ps = sum_by (λ p. value 0 p.offset) ps

-- The command for the offsets succeeds, and prints the partitions as they are.
pub record IsBroker {W : Type 0} (h : Host W) (partitions : W → List Partition) : Type 0 where
  pub partitions-IsPartition : (w : W) → All IsPartition (partitions w)
  pub succeeds : (w : W) → succeeded (h.run_cmd offset_command w).0 ≡ true
  pub prints : (w : W) → (h.run_cmd offset_command w).0.stdout ≡ printed (partitions w)

module _ {W : Type 0} (h : Host W) (is : IsHost h) (partitions : W → List Partition)
    (broker : IsBroker h partitions) where
  offset_at :
      (w : W)
      → get_kafka_offset h w ≡ (pos (messages (partitions w)), (h.run_cmd offset_command w).1)
  offset_at w =
      get_kafka_offset_lem h w (partitions w) (broker.partitions-IsPartition w) (broker.succeeds w)
        (broker.prints w)

  -- On a broker whose offsets the command prints, a run that passes reports the number of messages of the topic in a state `v`, from which it has
  -- read the offset last, and as delivered how many more these are than at its start; it is above 0.
  pub recovery_delivers :
      (fuel : ℕ) (w : W) (o : Outcome) {w' : W}
      → run h fuel w ≡ some (o, w')
      → o.result.passed ≡ true
      → (v : W) × (delivered : ℕ) × (w' ≡ (h.run_cmd offset_command v).1)
        × (o.after_recovery ≡ some (pos (messages (partitions v)), delivered))
        × (messages (partitions v) ≡ messages (partitions w) + delivered)
        × (0 < delivered)
  recovery_delivers fuel w o {w' = w'} e p =
      let (stopped, restarted, (after, v, read, reported, grew)) =
        recovery-passed h is fuel w o e p in
      let m = messages (partitions v) in
      let first : (get_kafka_offset h w).0 ≡ pos (messages (partitions w)) =
        ap (λ r. r.0) (offset_at w) in
      let last : after ≡ pos m = sym (ap (λ r. r.0) read) ∙ ap (λ r. r.0) (offset_at v) in
      let end : w' ≡ (h.run_cmd offset_command v).1 =
        sym (ap (λ r. r.1) read) ∙ ap (λ r. r.1) (offset_at v) in
      let told : o.after_recovery ≡ some (pos m, m - messages (partitions w)) =
        reported ∙ (λ i. some (last i, gain (last i) (first i))) in
      let more : 0 < m - messages (partitions w) =
        subst (λ x. 0 < x) (λ i. gain (last i) (first i)) grew in
      (v, m - messages (partitions w), end, told, omega arith, more)
