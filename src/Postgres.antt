-- ===== src/Postgres.antt =====
-- psycopg2 and the server behind it, as the code uses them: an interface over the contents `T` of
-- the database. A statement is given by what it does to the contents.
pub mod Scripted
pub mod Caught
use aiops_distributed_log.Prelude.{
  ℕ, ◌≡◌, List, [], ◌∷◌, Bool, true, false, String, Result, ok, err, if◌then◌else◌,
}

pub record Psycopg (T : Type 0) : Type 1 where
  pub Conn : Type 0
  pub connect : T → Result Conn
  pub execute : (T → T) → Conn → Result (Unit {0}) × Conn
  -- the result, and the contents of the database afterwards
  pub commit : Conn → Result (Unit {0}) × T
  -- What others see, what the open transaction sees, and whether it has been aborted.
  pub stored : Conn → T
  pub pending : Conn → T
  pub aborted : Conn → Bool

-- PostgreSQL's transactions: a statement that raises aborts its transaction, an aborted
-- transaction takes no statement, and its commit stores nothing.
pub record IsPsycopg {T : Type 0} (p : Psycopg T) : Type 0 where
  pub connect-ok :
      (t : T) (c : p.Conn)
      → p.connect t ≡ ok c
      → (p.stored c ≡ t) × (p.pending c ≡ t) × (p.aborted c ≡ false)
  pub stored-execute : (f : T → T) (c : p.Conn) → p.stored (p.execute f c).1 ≡ p.stored c
  pub execute-ok :
      (f : T → T) (c : p.Conn)
      → (p.execute f c).0 ≡ ok tt
      → (p.aborted c ≡ false)
        × (p.aborted (p.execute f c).1 ≡ false)
        × (p.pending (p.execute f c).1 ≡ f (p.pending c))
  pub execute-err :
      (f : T → T) (c : p.Conn) (e : String)
      → (p.execute f c).0 ≡ err e
      → p.aborted (p.execute f c).1 ≡ true
  pub commit-ok :
      (c : p.Conn)
      → (p.commit c).0 ≡ ok tt
      → (p.commit c).1 ≡ (if p.aborted c then p.stored c else p.pending c)
  pub commit-err : (c : p.Conn) (e : String) → (p.commit c).0 ≡ err e → (p.commit c).1 ≡ p.stored c

-- All statements, one after the other.
abbrev pub apply_all : {T R : Type 0} → (R → T → T) → List R → T → T
apply_all meaning [] t = t
apply_all meaning (r ∷ rs) t = apply_all meaning rs (meaning r t)
