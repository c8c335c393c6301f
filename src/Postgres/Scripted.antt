-- ===== src/Postgres/Scripted.antt =====
-- A concrete instance: a server that refuses the statements that a script of Booleans names.
use aiops_distributed_log.Prelude.{
  refl, Bool, true, false, List, [], ◌∷◌, Result, ok, err, arith, if◌then◌else◌, ◌&&◌, not,
}
use aiops_distributed_log.Postgres.{Psycopg, IsPsycopg}

pub record Session (T : Type 0) : Type 0 where
  pub stored : T
  pub pending : T
  pub aborted : Bool
  pub script : List Bool

-- The next entry of the script; past its end every statement goes through.
abbrev pub accepts : List Bool → Bool
accepts [] = true
accepts (b ∷ bs) = b

abbrev pub rest : List Bool → List Bool
rest [] = []
rest (b ∷ bs) = bs

module _ {T : Type 0} where
  abbrev pub run : (T → T) → Session T → Result (Unit {0}) × Session T
  run f s =
      if accepts s.script && not s.aborted
      then (ok tt, record s { pending = f s.pending; script = rest s.script })
      else (err "InFailedSqlTransaction", record s { aborted = true; script = rest s.script })

  abbrev pub scripted : List Bool → Psycopg T
  scripted script' = record {
    Conn = Session T;
    connect = λ t. ok (record { stored = t; pending = t; aborted = false; script = script' });
    execute = run;
    commit = λ s. (ok tt, if s.aborted then s.stored else s.pending);
    stored = λ s. s.stored;
    pending = λ s. s.pending;
    aborted = λ s. s.aborted;
  }

  pub scripted-IsPsycopg : (script' : List Bool) → IsPsycopg (scripted script')
  scripted-IsPsycopg script' = record {
    connect-ok = λ t c h. ground arith;
    stored-execute = λ f s. ground arith;
    execute-ok = λ f s h. ground arith;
    execute-err = λ f s e h. ground arith;
    commit-ok = λ s h. refl;
    commit-err = λ s e h. cc;
  }
