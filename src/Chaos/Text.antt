-- ===== src/Chaos/Text.antt =====
-- Python's text methods, as the scripts of chaos/ use them on the output of commands: lines end
-- with a line feed, and letters are ASCII.
pub mod Free
pub mod Numeral
use Prim.Native.Char.{Char, code}
use Prim.Native.String.{[] as ε, ◌∷◌ as ◌◁◌, find, len}
use aiops_distributed_log.Prelude.{
  ℕ, zero, suc, ◌+◌, ◌-◌, ◌*◌, Bool, ◌&&◌, ◌||◌, List, [], ◌∷◌, String, Option, none, some, ℤ, pos,
  negsuc, leb, nat_beq, if◌then◌else◌, ◌==◌, string_eq,
}

-- Blank characters: space, and tab to carriage return.
abbrev pub is_blank : Char → Bool
is_blank c = nat_beq (code c) 32 || (leb 9 (code c) && leb (code c) 13)

abbrev pub is_digit : Char → Bool
is_digit c = leb 48 (code c) && leb (code c) 57

-- `s.lstrip()`, `s.rstrip()` and `s.strip()`
unfoldable pub lstrip : String → String
lstrip ε = ε
lstrip (c ◁ s) = if is_blank c then lstrip s else c ◁ s

unfoldable pub rstrip : String → String
rstrip ε = ε
rstrip (c ◁ s) = let rest = rstrip s in if is_blank c && (rest == "") then ε else c ◁ rest

unfoldable pub strip : String → String
unfolding lstrip rstrip
strip s = lstrip (rstrip s)

abbrev on_first : Char → List String → List String
on_first c [] = (c ◁ ε) ∷ []
on_first c (p ∷ ps) = (c ◁ p) ∷ ps

-- `s.split(sep)`, for the separator's code
unfoldable pub split : ℕ → String → List String
split sep ε = ε ∷ []
split sep (c ◁ s) =
    let rest = split sep s in if nat_beq (code c) sep then ε ∷ rest else on_first c rest

-- A line feed at the end opens no further line.
abbrev drop_last_empty : List String → List String
drop_last_empty [] = []
drop_last_empty (p ∷ []) = if p == "" then [] else p ∷ []
drop_last_empty (p ∷ q ∷ ps) = p ∷ drop_last_empty (q ∷ ps)

unfoldable pub splitlines : String → List String
unfolding split
splitlines s = drop_last_empty (split 10 s)

-- `t in s`
abbrev pub is_in : String → String → Bool
is_in t s = leb (find s t) (len s)

abbrev pub starts_with : String → String → Bool
starts_with s t = nat_beq (find s t) 0

abbrev nth : ℕ → Char → String → Char
nth n c ε = c
nth zero c (d ◁ s) = d
nth (suc n) c (d ◁ s) = nth n c s

-- `s.lower()`
unfoldable pub lower : String → String
lower ε = ε
lower (c ◁ s) =
    (if leb 65 (code c) && leb (code c) 90
      then nth (code c - 65) c "abcdefghijklmnopqrstuvwxyz"
      else c)
    ◁ lower s

-- The number that the digits give, after those read so far.
unfoldable pub digits : ℕ → String → Option ℕ
digits n ε = some n
digits n (c ◁ s) = if is_digit c then digits (n * 10 + (code c - 48)) s else none

abbrev pub natural : String → Option ℕ
unfolding digits
natural ε = none
natural (c ◁ s) = digits 0 (c ◁ s)

abbrev negated : Option ℕ → Option ℤ
negated none = none
negated (some zero) = some (pos 0)
negated (some (suc n)) = some (negsuc n)

abbrev unsigned : Option ℕ → Option ℤ
unsigned none = none
unsigned (some n) = some (pos n)

abbrev signed : String → Option ℤ
unfolding digits
signed ε = none
signed (c ◁ s) =
    if nat_beq (code c) 45
    then negated (natural s)
    else if nat_beq (code c) 43
    then unsigned (natural s)
    else unsigned (natural (c ◁ s))

-- `int(s)`, where `none` is the ValueError
unfoldable pub to_int : String → Option ℤ
unfolding strip digits
to_int s = signed (strip s)

-- The digits at the front, and `re.search(r"\d+", s)`: the first digits of the text.
unfoldable pub leading : ℕ → String → ℕ
leading n ε = n
leading n (c ◁ s) = if is_digit c then leading (n * 10 + (code c - 48)) s else n

unfoldable pub search_number : String → Option ℕ
unfolding leading
search_number ε = none
search_number (c ◁ s) = if is_digit c then some (leading 0 (c ◁ s)) else search_number s
