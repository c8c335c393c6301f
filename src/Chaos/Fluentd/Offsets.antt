-- ===== src/Chaos/Fluentd/Offsets.antt =====
-- chaos/scenarios/fluentd_crash.py, `_get_kafka_offset`: what it makes of the lines that GetOffsetShell
-- prints.
use Prim.Native.Char.{Char}
use Prim.Native.String.{[] as ε, ◌∷◌ as ◌◁◌, ◌++◌ as ◌+++◌}
use aiops_distributed_log.Prelude.{
  ℕ, ◌+◌, ◌<◌, ◌≡◌, refl, ap, ◌∙◌, true, false, List, [], ◌∷◌, String, some, pos, ◌+ℤ◌, map, All,
  sum_by, ◌==◌, string_eq, arith,
}
use aiops_distributed_log.Chaos.Host.{Host, succeeded}
use aiops_distributed_log.Chaos.Text.{is_blank, lstrip, rstrip, strip, split, splitlines, to_int}
use aiops_distributed_log.Chaos.Text.Free.{
  Free, is_code, Free-append, Free-weaken, split-Free, split-append, rstrip-append, rstrip-Free,
  lstrip-Free, strip-Free, filled, rstrip-newline, rstrip-newline_kept, append_empty, lstrip-append,
  splitlines-split,
}
use aiops_distributed_log.Chaos.Text.Numeral.{
  numeral, value, is_mark, digit_lem, digits-numeral, numeral-Free, no_blank, no_colon,
}
use aiops_distributed_log.Chaos.Fluentd.{
  total_offset, get_kafka_offset, offset_command, third, offset_of,
}

pub offset_of-numeral :
    (ds : List ℕ) → All (λ d. d < 10) ds → offset_of (some (numeral ds)) ≡ pos (value 0 ds)
unfolding to_int
offset_of-numeral [] h = refl
offset_of-numeral (d ∷ ds) h =
    let blanks =
      Free-weaken is_mark is_blank (numeral (d ∷ ds)) no_blank (numeral-Free (d ∷ ds) h) in
    let read = digits-numeral (d ∷ ds) 0 h in
    let (_, at, _) = digit_lem d h.0 in
    let whole = strip-Free (numeral (d ∷ ds)) blanks in ground arith

-- A partition of a topic, with the decimal digits of its offset.
pub record Partition : Type 0 where
  pub topic : String
  pub number : String
  pub offset : List ℕ

-- The names hold no blank and no colon.
abbrev pub IsPartition : Partition → Type 0
IsPartition p = Free is_mark p.topic × Free is_mark p.number × All (λ d. d < 10) p.offset

-- `topic:partition:offset`
abbrev pub line : Partition → String
line p = p.topic +++ (":" ◁ (p.number +++ (":" ◁ numeral p.offset)))

line-Free : (p : Partition) → IsPartition p → Free is_blank (line p)
line-Free p (t, n, o) =
    let blanks = λ (s : String) (h : Free is_mark s). Free-weaken is_mark is_blank s no_blank h in
    Free-append is_blank p.topic (":" ◁ (p.number +++ (":" ◁ numeral p.offset))) (blanks p.topic t)
      (
        refl,
        Free-append is_blank p.number (":" ◁ numeral p.offset) (blanks p.number n)
            (refl, blanks (numeral p.offset) (numeral-Free p.offset o)),
      )

third-line :
    (p : Partition)
    → IsPartition p
    → offset_of (third (split 58 (strip (line p)))) ≡ pos (value 0 p.offset)
third-line p (t, n, o) =
    let digits_free =
      Free-weaken is_mark (is_code 58) (numeral p.offset) no_colon (numeral-Free p.offset o) in
    let number_free = Free-weaken is_mark (is_code 58) p.number no_colon n in
    let topic_free = Free-weaken is_mark (is_code 58) p.topic no_colon t in
    rw (
      strip-Free (line p) (line-Free p (t, n, o)),
      split-append 58 p.topic ":" (p.number +++ (":" ◁ numeral p.offset)) topic_free refl,
      split-append 58 p.number ":" (numeral p.offset) number_free refl,
      split-Free 58 (numeral p.offset) digits_free,
      offset_of-numeral p.offset o,
    )

-- What GetOffsetShell prints: a line for each partition.
abbrev pub printed : List Partition → String
printed [] = ε
printed (p ∷ ps) = line p +++ ("\n" ◁ printed ps)

abbrev joined : List Partition → String
joined [] = ε
joined (p ∷ []) = line p
joined (p ∷ q ∷ ps) = line p +++ ("\n" ◁ joined (q ∷ ps))

line_filled : (p : Partition) → (line p == "") ≡ false
line_filled p = filled p.topic ":" (p.number +++ (":" ◁ numeral p.offset))

joined_filled : (p : Partition) (ps : List Partition) → (joined (p ∷ ps) == "") ≡ false
joined_filled p [] = line_filled p
joined_filled p (q ∷ ps) = filled (line p) "\n" (joined (q ∷ ps))

rstrip-printed : (ps : List Partition) → All IsPartition ps → rstrip (printed ps) ≡ joined ps
rstrip-printed [] h = rstrip-Free ε tt
rstrip-printed (p ∷ []) (h, hs) = rw (
  rstrip-append (line p) ("\n" ◁ ε) (line-Free p h),
  rstrip-newline ε (rstrip-Free ε tt),
  append_empty (line p),
)
rstrip-printed (p ∷ q ∷ ps) (h, hs) =
    let ih = rstrip-printed (q ∷ ps) hs in
    let filled' : (rstrip (printed (q ∷ ps)) == "") ≡ false = rw (ih, joined_filled q ps) in
    rw (
      rstrip-append (line p) ("\n" ◁ printed (q ∷ ps)) (line-Free p h),
      rstrip-newline_kept (printed (q ∷ ps)) filled',
      ih,
    )

lstrip-joined : (ps : List Partition) → All IsPartition ps → lstrip (joined ps) ≡ joined ps
lstrip-joined [] h = lstrip-Free ε tt
lstrip-joined (p ∷ []) (h, hs) = lstrip-Free (line p) (line-Free p h)
lstrip-joined (p ∷ q ∷ ps) (h, hs) =
    lstrip-append (line p) ("\n" ◁ joined (q ∷ ps)) (line-Free p h) (line_filled p)

newline_blank : (c : Char) → is_blank c ≡ false → is_code 10 c ≡ false
newline_blank c h = ground arith

split-joined :
    (p : Partition) (ps : List Partition)
    → All IsPartition (p ∷ ps)
    → split 10 (joined (p ∷ ps)) ≡ map line (p ∷ ps)
split-joined p [] (h, hs) =
    split-Free 10 (line p)
      (Free-weaken is_blank (is_code 10) (line p) newline_blank (line-Free p h))
split-joined p (q ∷ ps) (h, hs) =
    let free = Free-weaken is_blank (is_code 10) (line p) newline_blank (line-Free p h) in
    rw (split-append 10 (line p) "\n" (joined (q ∷ ps)) free refl, split-joined q ps hs)

lines_filled : (ps : List Partition) → All (λ l. (l == "") ≡ false) (map line ps)
lines_filled [] = tt
lines_filled (p ∷ ps) = (line_filled p, lines_filled ps)

no_lines : splitlines (strip ε) ≡ []
unfolding splitlines strip
no_lines = refl

-- The lines of the stripped output are the ones that were printed.
pub splitlines-printed :
    (ps : List Partition) → All IsPartition ps → splitlines (strip (printed ps)) ≡ map line ps
unfolding strip
splitlines-printed [] h = no_lines
splitlines-printed (p ∷ ps) h = rw (
  rstrip-printed (p ∷ ps) h,
  lstrip-joined (p ∷ ps) h,
  splitlines-split (joined (p ∷ ps)) (map line (p ∷ ps)) (split-joined p ps h)
      (lines_filled (p ∷ ps)),
)

total_offset-lines :
    (ps : List Partition) (n : ℕ)
    → All IsPartition ps
    → total_offset (map line ps) (pos n) ≡ pos (n + sum_by (λ p. value 0 p.offset) ps)
unfolding total_offset
total_offset-lines [] n h = ground arith
total_offset-lines (p ∷ ps) n (h, hs) =
    let ih = total_offset-lines ps (n + value 0 p.offset) hs in
    let rest = sum_by (λ (p : Partition). value 0 p.offset) ps in
    let same : pos (n + value 0 p.offset + rest) ≡ pos (n + (value 0 p.offset + rest)) =
      ap pos (omega arith) in
    ap (λ t. total_offset (map line ps) (pos n +ℤ t)) (third-line p h) ∙ ih ∙ same

-- Where the command succeeds and prints a line `topic:partition:offset` for each partition, with no
-- blank and no colon in the names, what is read is the sum of the offsets of all partitions.
pub get_kafka_offset_lem :
    {W : Type 0} (h : Host W) (w : W) (ps : List Partition)
    → All IsPartition ps
    → succeeded (h.run_cmd offset_command w).0 ≡ true
    → (h.run_cmd offset_command w).0.stdout ≡ printed ps
    → get_kafka_offset h w
      ≡ (pos (sum_by (λ p. value 0 p.offset) ps), (h.run_cmd offset_command w).1)
unfolding get_kafka_offset
get_kafka_offset_lem h w ps parts success out =
    let lines = splitlines-printed ps parts in
    let sum = sum_by (λ (p : Partition). value 0 p.offset) ps in
    let total : total_offset (map line ps) (pos 0) ≡ pos sum =
      total_offset-lines ps 0 parts ∙ ap pos (omega arith) in
    rw (success, out, lines, total)
