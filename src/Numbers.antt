-- ===== src/Numbers.antt =====
-- The program's floating-point values: a type with the comparisons and the printing that the code
-- uses of them, which the definitions take as a parameter.
use dgx_control_center.Prelude.{String, Bool, ℕ, ltb, leb, ◌==◌}

pub record Numbers : Type 1 where
  pub Num : Type 0
  pub gt : Num → Num → Bool
  pub lt : Num → Num → Bool
  pub ge : Num → Num → Bool
  pub le : Num → Num → Bool
  pub eq : Num → Num → Bool
  pub zero : Num
  pub one : Num
  -- `${n}` and `n.toFixed(2)`
  pub to_text : Num → String
  pub to_fixed_two : Num → String

-- Whole numbers, at which the tests run; they all print alike.
abbrev pub whole : Numbers
whole = record {
  Num = ℕ;
  gt = λ a b. ltb b a;
  lt = ltb;
  ge = λ a b. leb b a;
  le = leb;
  eq = λ a b. a == b;
  zero = 0;
  one = 1;
  to_text = λ n. "a number";
  to_fixed_two = λ n. "a number";
}
