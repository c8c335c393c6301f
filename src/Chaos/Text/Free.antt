-- ===== src/Chaos/Text/Free.antt =====
-- `strip` and `split` on texts that are free of blanks and of the separator.
use Prim.Native.Char.{Char, code}
use Prim.Native.String.{[] as ε, ◌∷◌ as ◌◁◌, ◌++◌ as ◌+++◌}
use Prim.Native.Nat.{Ordering}
use Prim.Native.String as String
use Prim.Native.String.append
use Prim.Native.String.compare
use mathlib.Core.Path.{subst⁻¹}
use aiops_distributed_log.Prelude.{
  ℕ, ◌≡◌, refl, Bool, true, false, List, [], ◌∷◌, String, nat_beq, All, ◌==◌, string_eq, arith,
}
use aiops_distributed_log.Chaos.Text.{
  is_blank, lstrip, rstrip, strip, split, splitlines, drop_last_empty,
}

pub empty_append : (t : String) → (ε +++ t) ≡ t
empty_append t = λ i. append.nil t i

pub cons_append : (c : Char) (s t : String) → ((c ◁ s) +++ t) ≡ (c ◁ (s +++ t))
cons_append c s t = λ i. append.cons c s t i

-- No character of a text passes a test.
abbrev pub Free : (Char → Bool) → String → Type 0
Free q ε = Unit
Free q (c ◁ s) = (q c ≡ false) × Free q s

pub Free-append : (q : Char → Bool) (s t : String) → Free q s → Free q t → Free q (s +++ t)
Free-append q ε t h k = subst⁻¹ (Free q) (empty_append t) k
Free-append q (c ◁ s) t (h, hs) k = subst⁻¹ (Free q) (cons_append c s t) (h, Free-append q s t hs k)

pub Free-weaken :
    (p q : Char → Bool) (s : String)
    → ((c : Char) → p c ≡ false → q c ≡ false)
    → Free p s
    → Free q s
Free-weaken p q ε f h = tt
Free-weaken p q (c ◁ s) f (h, hs) = (f c h, Free-weaken p q s f hs)

abbrev pub is_code : ℕ → Char → Bool
is_code n c = nat_beq (code c) n

pub split-Free : (sep : ℕ) (s : String) → Free (is_code sep) s → split sep s ≡ s ∷ []
unfolding split
split-Free sep ε h = refl
split-Free sep (c ◁ s) (h, hs) = rw (h, split-Free sep s hs)

-- A text up to the first separator is the first part.
pub split-append :
    (sep : ℕ) (s : String) (c : Char) (t : String)
    → Free (is_code sep) s
    → is_code sep c ≡ true
    → split sep (s +++ (c ◁ t)) ≡ s ∷ split sep t
unfolding split
split-append sep ε c t h e = rw (empty_append (c ◁ t), e)
split-append sep (d ◁ s) c t (h, hs) e =
    rw (cons_append d s (c ◁ t), h, split-append sep s c t hs e)

pub rstrip-append : (s t : String) → Free is_blank s → rstrip (s +++ t) ≡ s +++ rstrip t
unfolding rstrip
rstrip-append ε t h = rw (empty_append t, empty_append (rstrip t))
rstrip-append (c ◁ s) t (h, hs) =
    rw (cons_append c s t, h, rstrip-append s t hs, cons_append c s (rstrip t))

pub rstrip-Free : (s : String) → Free is_blank s → rstrip s ≡ s
unfolding rstrip
rstrip-Free ε h = refl
rstrip-Free (c ◁ s) (h, hs) = rw (h, rstrip-Free s hs)

pub lstrip-Free : (s : String) → Free is_blank s → lstrip s ≡ s
unfolding lstrip
lstrip-Free ε h = refl
lstrip-Free (c ◁ s) (h, hs) = rw h

pub strip-Free : (s : String) → Free is_blank s → strip s ≡ s
unfolding strip
strip-Free s h = rw (rstrip-Free s h, lstrip-Free s h)

pub append_empty : (s : String) → (s +++ ε) ≡ s
append_empty ε = empty_append ε
append_empty (c ◁ s) = rw (cons_append c s ε, append_empty s)

cons_filled : (c : Char) (t : String) → ((c ◁ t) == "") ≡ false
cons_filled c t =
    let greater : String.compare (c ◁ t) "" ≡ Ordering.gt = λ i. compare.cons-nil c t i in
    rw greater

-- A text with a character in it is not the empty one.
pub filled : (s : String) (c : Char) (t : String) → ((s +++ (c ◁ t)) == "") ≡ false
filled ε c t = rw (empty_append (c ◁ t), cons_filled c t)
filled (d ◁ s) c t = rw (cons_append d s (c ◁ t), cons_filled d (s +++ (c ◁ t)))

pub lstrip-append :
    (s t : String) → Free is_blank s → (s == "") ≡ false → lstrip (s +++ t) ≡ s +++ t
unfolding lstrip
lstrip-append ε t h e = absurd (ground arith)
lstrip-append (c ◁ s) t (h, hs) e = rw (cons_append c s t, h)

-- `strip` takes a line feed away at the end.
pub rstrip-newline : (s : String) → rstrip s ≡ ε → rstrip ("\n" ◁ s) ≡ ε
unfolding rstrip
rstrip-newline s e = rw e

pub rstrip-newline_kept :
    (s : String) → (rstrip s == "") ≡ false → rstrip ("\n" ◁ s) ≡ ("\n" ◁ rstrip s)
unfolding rstrip
rstrip-newline_kept s e = rw e

kept : (ls : List String) → All (λ l. (l == "") ≡ false) ls → drop_last_empty ls ≡ ls
kept [] h = refl
kept (l ∷ []) (h, hs) = rw h
kept (l ∷ m ∷ ls) (h, hs) = rw (kept (m ∷ ls) hs)

-- Parts that hold something are the lines.
pub splitlines-split :
    (s : String) (ls : List String)
    → split 10 s ≡ ls
    → All (λ l. (l == "") ≡ false) ls
    → splitlines s ≡ ls
unfolding splitlines
splitlines-split s ls e h = rw (e, kept ls h)
