-- ===== src/Base/Decimal.antt =====
-- Python's `str` of a natural number, as f-strings use it.
use Prim.Native.Nat.{ℕ, zero, suc, ◌+◌, ◌-◌, ◌*◌, ◌/◌, ◌%◌, ◌<◌}
use Prim.Native.Char.{Char, code}
use Prim.Native.String.{String}
use mathlib.Core.Path.{◌≡◌, refl, sym, ap, ◌∙◌}
use mathlib.Core.Logic.{inl, inr}
use native.Mathlib.Omega.{arith}
use mega_deepagents.Base.Tests.{if◌then◌else◌, ltb, Bool-cases}

digit : ℕ → Char
digit zero = "0"
digit (suc zero) = "1"
digit (suc (suc zero)) = "2"
digit (suc (suc (suc zero))) = "3"
digit (suc (suc (suc (suc zero)))) = "4"
digit (suc (suc (suc (suc (suc zero))))) = "5"
digit (suc (suc (suc (suc (suc (suc zero)))))) = "6"
digit (suc (suc (suc (suc (suc (suc (suc zero))))))) = "7"
digit (suc (suc (suc (suc (suc (suc (suc (suc zero)))))))) = "8"
digit _ = "9"

-- The digits of `n`, in front of `out`.
emit : ℕ → ℕ → String → String
unfolding digit
emit zero n out = out
emit (suc fuel) n out =
    let more = emit fuel (n / 10) (String.◌∷◌ (digit (n % 10)) out) in
    if ltb n 10 then String.◌∷◌ (digit n) out else more

unfoldable pub decimal : ℕ → String
unfolding emit
decimal n = emit (suc n) n String.[]

-- The number that the digits stand for, after those that stand for `n`.
value : ℕ → String → ℕ
value n String.[] = n
value n (String.◌∷◌ c s) = value (n * 10 + (code c - 48)) s

code-digit : (d : ℕ) → d < 10 → code (digit d) ≡ 48 + d
unfolding digit
code-digit zero h = refl
code-digit (suc zero) h = refl
code-digit (suc (suc zero)) h = refl
code-digit (suc (suc (suc zero))) h = refl
code-digit (suc (suc (suc (suc zero)))) h = refl
code-digit (suc (suc (suc (suc (suc zero))))) h = refl
code-digit (suc (suc (suc (suc (suc (suc zero)))))) h = refl
code-digit (suc (suc (suc (suc (suc (suc (suc zero))))))) h = refl
code-digit (suc (suc (suc (suc (suc (suc (suc (suc zero)))))))) h = refl
code-digit (suc (suc (suc (suc (suc (suc (suc (suc (suc zero))))))))) h = refl
code-digit (suc (suc (suc (suc (suc (suc (suc (suc (suc (suc d)))))))))) h = absurd (omega arith)

value-emit : (fuel n : ℕ) (out : String) → n < fuel → value 0 (emit fuel n out) ≡ value n out
unfolding value emit
value-emit zero n out h = absurd (omega arith)
value-emit (suc fuel) n out h = elim (Bool-cases (ltb n 10)) [
  | inl small ↦ rw small (ap (λ (k : ℕ). value k out) (ground (arith, code-digit n)))
  | inr large ↦ rw large (
      value-emit fuel (n / 10) (String.◌∷◌ (digit (n % 10)) out) (ground arith)
      ∙ ap (λ (k : ℕ). value k out) (omega (arith, code-digit (n % 10) (omega arith))))
]

-- Different numbers are printed differently.
pub decimal-injective : (m n : ℕ) → decimal m ≡ decimal n → m ≡ n
unfolding decimal value
decimal-injective m n h =
    sym (value-emit (suc m) m String.[] (omega arith))
    ∙ ap (value 0) h
    ∙ value-emit (suc n) n String.[] (omega arith)

printed : decimal 2048 ≡ "2048"
unfolding decimal
printed = refl
