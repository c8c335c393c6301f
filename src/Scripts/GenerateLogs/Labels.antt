-- ===== src/Scripts/GenerateLogs/Labels.antt =====
-- `_label` of scripts/generate_logs.py on the messages of failures.
use Prim.Native.Char.{Char, code, len_utf8}
use Prim.Native.String.append
use Prim.Native.String.find
use Prim.Native.String.len
use Prim.Native.String.{[] as ε, ◌∷◌ as ◌◁◌, ◌++◌ as ◌⧺◌, find, len, begins, same}
use aiops_distributed_log.Prelude.{
  ℕ, zero, suc, ◌+◌, ◌≤◌, ◌≡◌, refl, sym, ◌∙◌, ap, Bool, true, false, List, [], ◌∷◌, String, arith,
  ◌==◌, string_eq, any, all, All, ◌||◌, Bool-cases, ==_iff, inl, inr,
}
use mathlib.Core.Path.{subst}
use text.Mathlib.TextFind.{begins_cases}
use text.Mathlib.TextPositions.{compare_self}
use aiops_distributed_log.Chaos.Text.{is_in}
use aiops_distributed_log.Scripts.GenerateLogs.{
  Piece, lit, hole, fill, label_in, label, failure_labels, pick, first_anomaly_message,
  other_anomaly_messages,
}

begins-append : (t v : String) (y n : ℕ) → begins (t ⧺ v) t y n ≡ y
begins-append ε v y n = refl
begins-append (c ◁ t) v y n =
    ap (λ w. begins w (c ◁ t) y n) (append.cons c t v)
    ∙ ap (λ o. same o (begins (t ⧺ v) t y n) n) (compare_self (code c))
    ∙ begins-append t v y n

find-at : (s t : String) → (v : String) → s ≡ t ⧺ v → find s t ≡ 0
find-at ε t v e = find.nil t ∙ ap (λ w. begins w t 0 1) e ∙ begins-append t v 0 1
find-at (c ◁ s) t v e =
    find.cons c s t
    ∙ ap (λ w. begins w t 0 (len_utf8 c + find s t)) e
    ∙ begins-append t v 0 (len_utf8 c + find s t)

find-later : (c : Char) (w t : String) → find w t ≤ len w → find (c ◁ w) t ≤ len (c ◁ w)
find-later c w t h =
    let step : find (c ◁ w) t ≡ begins (c ◁ w) t 0 (len_utf8 c + find w t) = find.cons c w t in
    let size : len (c ◁ w) ≡ len_utf8 c + len w = len.cons c w in
    elim (begins_cases (c ◁ w) t 0 (len_utf8 c + find w t)) [
      | inl (here, _) ↦ omega (arith, step, here)
      | inr later ↦ omega (arith, step, size, later, h)
    ]

find-behind : (u s t : String) → find s t ≤ len s → find (u ⧺ s) t ≤ len (u ⧺ s)
find-behind ε s t h = subst (λ w. find w t ≤ len w) (sym (append.nil s)) h
find-behind (c ◁ u) s t h =
    subst (λ w. find w t ≤ len w) (sym (append.cons c u s))
      (find-later c (u ⧺ s) t (find-behind u s t h))

is_in-append : (t v : String) → is_in t (t ⧺ v) ≡ true
is_in-append t v = ground (arith, find-at (t ⧺ v) t v refl)

is_in-behind : (u s t : String) → is_in t s ≡ true → is_in t (u ⧺ s) ≡ true
is_in-behind u s t h = ground (arith, find-behind u s t)

-- Whether a text is one of the literal parts.
abbrev has_part : String → List Piece → Bool
has_part kw [] = false
has_part kw (lit s ∷ ps) = (s == kw) || has_part kw ps
has_part kw (hole name ∷ ps) = has_part kw ps

-- Whatever fills the fields, the literal parts stand in the message.
is_in-fill :
    (values : String → String) (kw : String) (ps : List Piece)
    → has_part kw ps ≡ true
    → is_in kw (fill values ps) ≡ true
unfolding fill
is_in-fill values kw [] h = absurd (ground arith)
is_in-fill values kw (lit s ∷ ps) h = elim (Bool-cases (s == kw)) [
  | inl same_text ↦
      subst (λ t. is_in t (s ⧺ fill values ps) ≡ true) ((==_iff s kw).0 same_text)
        (is_in-append s (fill values ps))
  | inr other ↦ is_in-behind s (fill values ps) kw (is_in-fill values kw ps (ground arith))
]
is_in-fill values kw (hole name ∷ ps) h =
    is_in-behind (values name) (fill values ps) kw (is_in-fill values kw ps h)

-- A text in which some keyword stands has a label of the table.
label_in-found :
    (ls : List (String × String)) (msg : String)
    → any (λ l. is_in l.0 msg) ls ≡ true
    → All (λ l. (l.1 == "normal") ≡ false) ls
    → (label_in ls msg == "normal") ≡ false
unfolding label_in
label_in-found [] msg h all = absurd (ground arith)
label_in-found (l ∷ ls) msg h all = ground (arith, label_in-found ls msg)

any_part :
    (values : String → String) (ls : List (String × String)) (ps : List Piece)
    → any (λ l. has_part l.0 ps) ls ≡ true
    → any (λ l. is_in l.0 (fill values ps)) ls ≡ true
any_part values [] ps h = absurd (ground arith)
any_part values (l ∷ ls) ps h = ground (arith, is_in-fill values l.0 ps, any_part values ls ps)

label-fill :
    (values : String → String) (ps : List Piece)
    → any (λ l. has_part l.0 ps) failure_labels ≡ true
    → (label (fill values ps) == "normal") ≡ false
label-fill values ps h =
    label_in-found failure_labels (fill values ps) (any_part values failure_labels ps h) (
      refl,
      (refl, (refl, (refl, (refl, (refl, (refl, (refl, (refl, (refl, (refl, (refl, tt))))))))))),
    )

pick-all :
    {A : Type 0} (p : A → Bool) (n : ℕ) (a : A) (rest : List A)
    → all p (a ∷ rest) ≡ true
    → p (pick n a rest) ≡ true
unfolding pick
pick-all p n a [] h = ground arith
pick-all p zero a (b ∷ rest) h = ground arith
pick-all p (suc n) a (b ∷ rest) h = ground (arith, pick-all p n b rest)

-- Every message of a failure, however its fields are filled, has a failure's label.
pub label-anomaly :
    (values : String → String) (n : ℕ)
    → (label (fill values (pick n first_anomaly_message other_anomaly_messages)) == "normal")
      ≡ false
label-anomaly values n = label-fill values (pick n first_anomaly_message other_anomaly_messages) (
    pick-all (λ ps. any (λ l. has_part l.0 ps) failure_labels) n first_anomaly_message
      other_anomaly_messages refl)
