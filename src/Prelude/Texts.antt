-- ===== src/Prelude/Texts.antt =====
-- Laws of the texts that are lists of code units: trimming, splitting, decimal digits.

use Prim.Native.Nat.{ℕ, zero, suc, ◌+◌, ◌/◌, ◌%◌, ◌<◌}
use mathlib.Core.Path.{◌≡◌, refl, ap, ◌∙◌}
use mathlib.Core.Logic.{inl, inr}
use mathlib.Core.Bool.{true, false}
use mathlib.Core.List.{List, [], ◌∷◌, ◌++◌}
use native.Mathlib.Omega.{arith}
use dgx_control_center.Prelude.Tests.{ltb, ◌==◌, Bool-cases}
use dgx_control_center.Prelude.Lists.{All}
use dgx_control_center.Prelude.Text.{
  is_space, trim_start, trim_end, split, is_digit, number_from, keep_before, digits_from, decimal,
}

abbrev pub NotSpace : ℕ → Type 0
NotSpace c = is_space c ≡ false

keep_before-NotSpace : (c : ℕ) (cs : List ℕ) → NotSpace c → keep_before c cs ≡ c ∷ cs
keep_before-NotSpace c [] h = rw h refl
keep_before-NotSpace c (d ∷ ds) h = refl

-- A text without white space is trimmed already.
pub trim_start-head : (c : ℕ) (cs : List ℕ) → NotSpace c → trim_start (c ∷ cs) ≡ c ∷ cs
unfolding trim_start
trim_start-head c cs h = rw h refl

pub trim_end-nil : trim_end [] ≡ []
unfolding trim_end
trim_end-nil = refl

-- The end of a text is trimmed behind its last character that is no white space.
pub trim_end-append : (w cs : List ℕ) → All NotSpace w → trim_end (w ++ cs) ≡ w ++ trim_end cs
unfolding trim_end
trim_end-append [] cs hs = refl
trim_end-append (c ∷ w) cs (h, hs) =
    keep_before-NotSpace c (trim_end (w ++ cs)) h ∙ ap (◌∷◌ c) (trim_end-append w cs hs)

pub split-free : (sep : ℕ) (w : List ℕ) → All (λ c. (c == sep) ≡ false) w → split sep w ≡ w ∷ []
unfolding split
split-free sep [] hs = refl
split-free sep (c ∷ w) (h, hs) = rw (h, split-free sep w hs) refl

pub split-append :
    (sep : ℕ) (w s : List ℕ)
    → All (λ c. (c == sep) ≡ false) w
    → split sep (w ++ sep ∷ s) ≡ w ∷ split sep s
unfolding split
split-append sep [] s hs = ground arith
split-append sep (c ∷ w) s (h, hs) = rw (h, split-append sep w s hs) refl

abbrev pub IsDigit : ℕ → Type 0
IsDigit c = is_digit c ≡ true

pub digits_from-IsDigit :
    (fuel n : ℕ) (rest : List ℕ)
    → n < fuel
    → All IsDigit rest
    → All IsDigit (digits_from fuel n rest)
unfolding digits_from
digits_from-IsDigit zero n rest h hs = absurd (omega arith)
digits_from-IsDigit (suc fuel) n rest h hs = elim (Bool-cases (ltb n 10)) [
  | inl small ↦ rw small (ground arith, hs)
  | inr large ↦
      rw large (
        digits_from-IsDigit fuel (n / 10) ((b'0' + n % 10) ∷ rest) (ground arith)
          (ground arith, hs))
]

pub number_from-digits_from :
    (fuel n : ℕ) (rest : List ℕ)
    → n < fuel
    → number_from 0 (digits_from fuel n rest) ≡ number_from n rest
unfolding digits_from number_from
number_from-digits_from zero n rest h = absurd (omega arith)
number_from-digits_from (suc fuel) n rest h = elim (Bool-cases (ltb n 10)) [
  | inl small ↦ rw small (ap (λ k. number_from k rest) (omega arith))
  | inr large ↦ rw large (
      number_from-digits_from fuel (n / 10) ((b'0' + n % 10) ∷ rest) (ground arith)
      ∙ ap (λ k. number_from k rest) (omega arith))
]

pub decimal-IsDigit : (n : ℕ) → All IsDigit (decimal n)
unfolding decimal
decimal-IsDigit n = digits_from-IsDigit (suc n) n [] (omega arith) tt

-- The decimal digits of a number read back as the number.
pub number_from-decimal : (n : ℕ) → number_from 0 (decimal n) ≡ n
unfolding decimal number_from
number_from-decimal n = number_from-digits_from (suc n) n [] (omega arith)

digits_from-cons :
    (fuel n c : ℕ) (rest : List ℕ)
    → (d : ℕ) × (ds : List ℕ) × (digits_from fuel n (c ∷ rest) ≡ d ∷ ds)
unfolding digits_from
digits_from-cons zero n c rest = (c, rest, refl)
digits_from-cons (suc fuel) n c rest = elim (Bool-cases (ltb n 10)) [
  | inl small ↦ (b'0' + n, c ∷ rest, ground arith)
  | inr large ↦
      let (d, ds, e) = digits_from-cons fuel (n / 10) (b'0' + n % 10) (c ∷ rest) in
      (d, ds, rw large e)
]

-- A number prints at least one digit.
pub decimal-cons : (n : ℕ) → (d : ℕ) × (ds : List ℕ) × (decimal n ≡ d ∷ ds)
unfolding decimal digits_from
decimal-cons n = elim (Bool-cases (ltb n 10)) [
  | inl small ↦ (b'0' + n, [], ground arith)
  | inr large ↦
      let (d, ds, e) = digits_from-cons n (n / 10) (b'0' + n % 10) [] in (d, ds, rw large e)
]
