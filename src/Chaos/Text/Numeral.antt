-- ===== src/Chaos/Text/Numeral.antt =====
-- Numbers in decimal notation, and what `int` makes of them.
use Prim.Native.Char.{Char, code}
use Prim.Native.String.{[] as ε, ◌∷◌ as ◌◁◌}
use aiops_distributed_log.Prelude.{
  ℕ, zero, suc, ◌+◌, ◌*◌, ◌<◌, ◌≡◌, refl, Bool, true, false, ◌||◌, List, [], ◌∷◌, String, some, All,
  arith,
}
use aiops_distributed_log.Chaos.Text.{is_blank, is_digit, digits}
use aiops_distributed_log.Chaos.Text.Free.{Free, is_code}

-- Decimal notation, from the digit of the highest place on.
abbrev pub digit : ℕ → Char
digit zero = "0"
digit (suc zero) = "1"
digit (suc (suc zero)) = "2"
digit (suc (suc (suc zero))) = "3"
digit (suc (suc (suc (suc zero)))) = "4"
digit (suc (suc (suc (suc (suc zero))))) = "5"
digit (suc (suc (suc (suc (suc (suc zero)))))) = "6"
digit (suc (suc (suc (suc (suc (suc (suc zero))))))) = "7"
digit (suc (suc (suc (suc (suc (suc (suc (suc zero)))))))) = "8"
digit _ = "9"

abbrev pub numeral : List ℕ → String
numeral [] = ε
numeral (d ∷ ds) = digit d ◁ numeral ds

abbrev pub value : ℕ → List ℕ → ℕ
value n [] = n
value n (d ∷ ds) = value (n * 10 + d) ds

-- A blank or a colon.
abbrev pub is_mark : Char → Bool
is_mark c = is_blank c || is_code 58 c

pub digit_lem :
    (d : ℕ)
    → d < 10
    → (is_digit (digit d) ≡ true) × (code (digit d) ≡ 48 + d) × (is_mark (digit d) ≡ false)
digit_lem zero h = (refl, refl, refl)
digit_lem (suc zero) h = (refl, refl, refl)
digit_lem (suc (suc zero)) h = (refl, refl, refl)
digit_lem (suc (suc (suc zero))) h = (refl, refl, refl)
digit_lem (suc (suc (suc (suc zero)))) h = (refl, refl, refl)
digit_lem (suc (suc (suc (suc (suc zero))))) h = (refl, refl, refl)
digit_lem (suc (suc (suc (suc (suc (suc zero)))))) h = (refl, refl, refl)
digit_lem (suc (suc (suc (suc (suc (suc (suc zero))))))) h = (refl, refl, refl)
digit_lem (suc (suc (suc (suc (suc (suc (suc (suc zero)))))))) h = (refl, refl, refl)
digit_lem (suc (suc (suc (suc (suc (suc (suc (suc (suc zero))))))))) h = (refl, refl, refl)
digit_lem (suc (suc (suc (suc (suc (suc (suc (suc (suc (suc d)))))))))) h = absurd (omega arith)

pub digits-numeral :
    (ds : List ℕ) (n : ℕ) → All (λ d. d < 10) ds → digits n (numeral ds) ≡ some (value n ds)
unfolding digits
digits-numeral [] n h = refl
digits-numeral (d ∷ ds) n (h, hs) =
    let (a, b, c) = digit_lem d h in let ih = digits-numeral ds (n * 10 + d) hs in ground arith

pub numeral-Free : (ds : List ℕ) → All (λ d. d < 10) ds → Free is_mark (numeral ds)
numeral-Free [] h = tt
numeral-Free (d ∷ ds) (h, hs) = ((digit_lem d h).2, numeral-Free ds hs)

pub no_blank : (c : Char) → is_mark c ≡ false → is_blank c ≡ false
no_blank c h = ground arith

pub no_colon : (c : Char) → is_mark c ≡ false → is_code 58 c ≡ false
no_colon c h = ground arith
