-- ===== src/Scripts/Audit.antt =====
-- scripts/network_isolation_audit.py: each rule says whether a container reaches another.
use aiops_distributed_log.Prelude.{
  ℕ, ◌+◌, ◌≡◌, Bool, true, false, not, ◌&&◌, List, [], ◌∷◌, String, Result, ok, err, count_if,
  length, nat_beq, if◌then◌else◌, all, arith,
}
use aiops_distributed_log.Chaos.Text.{is_in}

pub record IsolationRule : Type 0 where
  pub source_container : String
  pub target_host : String
  pub target_port : ℕ
  pub should_reach : Bool

abbrev rule : String → String → ℕ → Bool → IsolationRule
rule source target port should = record {
  source_container = source;
  target_host = target;
  target_port = port;
  should_reach = should;
}

abbrev pub rules : List IsolationRule
rules =
    rule "log-generator" "postgres-db" 5432 false
    ∷ rule "log-generator" "fastapi-server" 8000 false
    ∷ rule "log-generator" "minio-oss" 9000 false
    ∷ rule "log-generator" "grafana-dashboard" 3000 false
    ∷ rule "log-generator" "kafka-1" 29092 true
    ∷ rule "log-generator" "fluentd-agent" 24224 true
    ∷ rule "fastapi-server" "log-generator" 8888 false
    ∷ rule "fastapi-server" "kafka-1" 29092 true
    ∷ rule "fastapi-server" "postgres-db" 5432 true
    ∷ rule "spark-master" "minio-oss" 9000 true
    ∷ rule "spark-master" "kafka-1" 29092 true
    ∷ []

abbrev iff : Bool → Bool → Bool
iff true b = b
iff false b = not b

-- `probe` is the output of the connection test in the source's container, or the exception.
module _ (probe : String → String → ℕ → Result String) where
  unfoldable pub reachable : IsolationRule → Bool
  reachable r = elim (probe r.source_container r.target_host r.target_port) [
    | ok stdout ↦ is_in "OK" stdout
    | err e ↦ false
  ]

  unfoldable pub audit_from : List IsolationRule → ℕ → ℕ → ℕ × ℕ
  unfolding reachable
  audit_from [] passed failed = (passed, failed)
  audit_from (r ∷ rs) passed failed =
      let holds = iff (reachable r) r.should_reach in
      audit_from rs (if holds then passed + 1 else passed) (if holds then failed else failed + 1)

  unfoldable pub run_audit : List IsolationRule → ℕ × ℕ
  unfolding audit_from
  run_audit rs = audit_from rs 0 0

  unfoldable pub main : ℕ
  unfolding run_audit
  main = if nat_beq (run_audit rules).1 0 then 0 else 1

  abbrev pub obeys : IsolationRule → Bool
  obeys r = iff (reachable r) r.should_reach

  audit_from_lem :
      (rs : List IsolationRule) (p f : ℕ)
      → ((audit_from rs p f).0 ≡ p + count_if obeys rs)
        × ((audit_from rs p f).0 + (audit_from rs p f).1 ≡ p + f + length rs)
        × (nat_beq (audit_from rs p f).1 0 ≡ (nat_beq f 0 && all obeys rs))
  unfolding audit_from
  audit_from_lem [] p f = ground arith
  audit_from_lem (r ∷ rs) p f =
      ground
        (arith, audit_from_lem rs (if obeys r then p + 1 else p) (if obeys r then f else f + 1))

  -- Every rule is counted once, as passed where the network does what it says; the exit code of the
  -- program is 0 exactly if the network obeys all eleven rules.
  pub audit_lem :
      (rs : List IsolationRule)
      → ((run_audit rs).0 ≡ count_if obeys rs)
        × ((run_audit rs).0 + (run_audit rs).1 ≡ length rs)
        × (main ≡ (if all obeys rules then 0 else 1))
  unfolding run_audit main
  audit_lem rs = ground (arith, audit_from_lem rs 0 0, audit_from_lem rules 0 0)
