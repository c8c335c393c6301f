-- ===== src/Scripts/Replay.antt =====
-- docker/log-generator/log_replay.py: the dataset is appended to the log file, over and over.
use Prim.Native.String.{[] as ε, ◌∷◌ as ◌◁◌}
use Prim.Native.Char.{code}
use aiops_distributed_log.Prelude.{
  ℕ, zero, suc, ◌+◌, ◌*◌, ◌≡◌, refl, true, not, ◌&&◌, List, [], ◌∷◌, ◌++◌, String, length, leb,
  nat_beq, filter, map, is_empty, if◌then◌else◌, ◌==◌, string_eq, arith, append-nil, list_laws,
  Bool-cases, inl, inr,
}
use aiops_distributed_log.Chaos.Text.{strip}

abbrev pub batch_size : ℕ
batch_size = 10

-- `line.rstrip("\n")`
unfoldable pub rstrip_newlines : String → String
rstrip_newlines ε = ε
rstrip_newlines (c ◁ s) =
    let rest = rstrip_newlines s in if nat_beq (code c) 10 && (rest == "") then ε else c ◁ rest

unfoldable pub load_dataset : List String → List String
unfolding strip rstrip_newlines
load_dataset lines = map rstrip_newlines (filter (λ line. not (strip line == "")) lines)

-- The log file's lines, and `total_written`.
pub record Target : Type 0 where
  pub file : List String
  pub total_written : ℕ

-- `fh.write("\n".join(batch) + "\n")`
abbrev pub write : List String → Target → Target
write batch t = record { file = t.file ++ batch; total_written = t.total_written + length batch }

-- The loop over the lines, and what is left in `batch` at its end.
unfoldable pub replay_lines : List String → List String → Target → List String × Target
replay_lines [] batch t = (batch, t)
replay_lines (line ∷ lines) batch t =
    let full = leb batch_size (length (batch ++ line ∷ [])) in
    replay_lines lines (if full then [] else batch ++ line ∷ [])
      (if full then write (batch ++ line ∷ []) t else t)

unfoldable pub replay_pass : List String → Target → Target
unfolding replay_lines
replay_pass lines t =
    let (batch, t') = replay_lines lines [] t in if is_empty batch then t' else write batch t'

-- `while True`, for some number of passes.
unfoldable pub replay : ℕ → List String → Target → Target
unfolding replay_pass
replay zero lines t = t
replay (suc passes) lines t = replay passes lines (replay_pass lines t)

-- The file's lines with those that are held back.
replay_lines_lem :
    (lines batch : List String) (t : Target)
    → let (batch', t') = replay_lines lines batch t in
      (t'.file ++ batch' ≡ t.file ++ (batch ++ lines))
      × (t'.total_written + length batch' ≡ t.total_written + length batch + length lines)
unfolding replay_lines
replay_lines_lem [] batch t = ground (arith, append-nil batch)
replay_lines_lem (line ∷ lines) batch t =
    let one = batch ++ line ∷ [] in
    elim (Bool-cases (leb batch_size (length one))) [
      | inl full ↦ grind (arith, list_laws, replay_lines_lem lines [] (write one t))
      | inr room ↦ grind (arith, list_laws, replay_lines_lem lines one t)
    ]

nothing_left : (batch : List String) → is_empty batch ≡ true → batch ≡ []
nothing_left [] e = refl
nothing_left (l ∷ ls) e = absurd (ground arith)

replay_pass_lem :
    (lines : List String) (t : Target)
    → ((replay_pass lines t).file ≡ t.file ++ lines)
      × ((replay_pass lines t).total_written ≡ t.total_written + length lines)
unfolding replay_pass
replay_pass_lem lines t =
    let (batch, t') = replay_lines lines [] t in
    elim (Bool-cases (is_empty batch)) [
      | inl flushed ↦
          ground
            (arith, replay_lines_lem lines [] t, nothing_left batch flushed, append-nil t'.file)
      | inr some_left ↦ ground (arith, replay_lines_lem lines [] t)
    ]

abbrev pub copies : ℕ → List String → List String
copies zero lines = []
copies (suc n) lines = lines ++ copies n lines

-- However the lines fall into batches, each pass appends the whole dataset in order and counts
-- each of its lines once.
pub replay_lem :
    (passes : ℕ) (lines : List String) (t : Target)
    → ((replay passes lines t).file ≡ t.file ++ copies passes lines)
      × ((replay passes lines t).total_written ≡ t.total_written + passes * length lines)
unfolding replay
replay_lem zero lines t = ground (arith, append-nil t.file)
replay_lem (suc passes) lines t =
    grind (arith, list_laws, replay_lem passes lines (replay_pass lines t), replay_pass_lem lines t)
