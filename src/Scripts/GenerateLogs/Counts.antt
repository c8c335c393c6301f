-- ===== src/Scripts/GenerateLogs/Counts.antt =====
-- What scripts/generate_logs.py writes and prints.
use Prim.Native.Nat.{◌%◌}
use mathlib.Core.Path.{subst}
use aiops_distributed_log.Prelude.{
  ℕ, zero, suc, ◌+◌, ◌≤◌, ◌≡◌, refl, inl, inr, not, Bool, Bool-cases, List, [], ◌∷◌, ◌++◌, String,
  some, ok, pos, arith, length, sum_by, count_if, length-append, sum_by-append, count_if-append,
  ◌==◌, string_eq, ltb, if◌then◌else◌,
}
use aiops_distributed_log.Scripts.GenerateLogs.{
  Draws, Entry, generate_log_entry, write_entries, generate_logs,
}
use aiops_distributed_log.Scripts.GenerateLogs.Labels.{label-anomaly}

module _ {F : Type 0} (below : F → F → Bool) where
  entry-labelled :
      (d : Draws F) (timestamp : String) (prob : F)
      → let e = generate_log_entry below d timestamp prob in
        e.is_anomaly ≤ (if e.failure_type == "normal" then 0 else 1)
  unfolding generate_log_entry
  entry-labelled d timestamp prob = elim (Bool-cases (below d.random prob)) [
    | inl anomaly ↦ ground (arith, label-anomaly d.values d.template)
    | inr normal ↦ ground arith
  ]

  abbrev pub is_failing : Entry → Bool
  is_failing e = not (e.failure_type == "normal")

  -- What the counters say of the file, which has `n` entries.
  abbrev pub Counted : ℕ → List Entry × (ℕ × ℕ) → Type 0
  Counted n (file, (written, anomalies)) =
      (length file ≡ n)
      × (written ≡ n)
      × (anomalies ≡ sum_by (λ e. e.is_anomaly) file)
      × (anomalies ≤ count_if is_failing file)

  next-Counted :
      (e : Entry) (n : ℕ) (file : List Entry) (written anomalies : ℕ)
      → e.is_anomaly ≤ (if e.failure_type == "normal" then 0 else 1)
      → Counted n (file, (written, anomalies))
      → Counted (n + 1) (file ++ e ∷ [], (written + 1, anomalies + e.is_anomaly))
  next-Counted e n file written anomalies labelled h = ground (
    arith,
    length-append file (e ∷ []),
    sum_by-append (λ x. x.is_anomaly) file (e ∷ []),
    count_if-append is_failing file (e ∷ []),
  )

  module _ (draws : ℕ → Draws F) (stamp : ℕ → String) (burst_prob anomaly_prob : F) where
    write_entries-Counted :
        (n i m : ℕ) (out : List Entry × (ℕ × ℕ))
        → Counted m out
        → Counted (m + n) (write_entries below draws stamp burst_prob anomaly_prob n i out)
    unfolding write_entries
    write_entries-Counted zero i m out h = subst (λ k. Counted k out) (omega arith) h
    write_entries-Counted (suc n) i m (file, (written, anomalies)) h =
        let prob = if ltb (i % 5000) 200 then burst_prob else anomaly_prob in
        let e = generate_log_entry below (draws i) (stamp i) prob in
        let labelled = entry-labelled (draws i) (stamp i) prob in
        let out' : List Entry × (ℕ × ℕ) =
          (file ++ e ∷ [], (written + 1, anomalies + e.is_anomaly)) in
        let shift : m + 1 + n ≡ m + suc n = omega arith in
        subst
          (λ k. Counted k (write_entries below draws stamp burst_prob anomaly_prob n (i + 1) out'))
          shift
          (write_entries-Counted n (i + 1) (m + 1) out'
            (next-Counted e m file written anomalies labelled h))

    all-Counted :
        (n : ℕ)
        → Counted n (write_entries below draws stamp burst_prob anomaly_prob n 0 ([], (0, 0)))
    all-Counted n =
        let sum : 0 + n ≡ n = omega arith in
        subst
          (λ k.
            Counted k (write_entries below draws stamp burst_prob anomaly_prob n 0 ([], (0, 0))))
          sum (write_entries-Counted n 0 0 ([], (0, 0)) (refl, refl, refl, omega arith))

    -- A run that asks for at least one entry returns with that many in the file; what it prints are
    -- their number and that of the anomalies among them; and with any draws, at least as many
    -- entries have the type of a failure, since each message of an anomaly is recognised.
    pub generate_logs_lem :
        (n : ℕ)
        → (out : List Entry × (ℕ × ℕ)) × (generate_logs below draws stamp burst_prob anomaly_prob
              (pos (suc n))
            ≡ (some out.0, ok out.1))
          × Counted (suc n) out
    unfolding generate_logs
    generate_logs_lem n =
        let out = write_entries below draws stamp burst_prob anomaly_prob (suc n) 0 ([], (0, 0)) in
        (out, refl, all-Counted (suc n))
