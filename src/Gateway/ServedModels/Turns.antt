-- ===== src/Gateway/ServedModels/Turns.antt =====
-- server/src/gateway/servedModels.ts: the targets of a class take their turns.
use native.Mathlib.Nat.{mod-lt}
use dgx_control_center.Prelude.{
  ℕ, zero, suc, ◌%◌, ◌≤◌, ◌<◌, ◌≡◌, refl, inl, inr, Option, none, some, List, [], ◌∷◌, ◌++◌, arith,
  length, take, drop, select, ltb, Bool-cases,
}
use dgx_control_center.Gateway.ServedModels.{
  TargetHealth, RankedTarget, in_class, rotate, rank_class,
}

abbrev pub get_elem? : List RankedTarget → ℕ → Option RankedTarget
get_elem? [] i = none
get_elem? (x ∷ xs) zero = some x
get_elem? (x ∷ xs) (suc i) = get_elem? xs i

abbrev pub first : List RankedTarget → Option RankedTarget
first [] = none
first (x ∷ xs) = some x

first-drop :
    (i : ℕ) (l rest : List RankedTarget) → i < length l → first (drop i l ++ rest) ≡ get_elem? l i
first-drop i [] rest h = absurd (omega arith)
first-drop zero (x ∷ l) rest h = refl
first-drop (suc i) (x ∷ l) rest h = first-drop i l rest (omega arith)

first_single :
    (rr : ℕ) (l : List RankedTarget)
    → length l ≤ 1
    → 0 < length l
    → first l ≡ get_elem? l (rr % length l)
first_single rr [] h p = absurd (omega arith)
first_single rr (x ∷ []) h p = let e : rr % 1 ≡ 0 = omega arith in rw e refl
first_single rr (x ∷ y ∷ m) h p = absurd (omega arith)

first-rotate :
    (rr : ℕ) (l : List RankedTarget)
    → 0 < length l
    → first (rotate rr l) ≡ get_elem? l (rr % length l)
unfolding rotate
first-rotate rr l p = elim (Bool-cases (ltb 1 (length l))) [
  | inl many ↦ rw many (first-drop (rr % length l) l (take (rr % length l) l) (mod-lt _ p))
  | inr few ↦ rw few (first_single rr l (ground arith) p)
]

-- The target of a class that is tried first is the one at the counter's place modulo the size of
-- the class: the targets of a class take their turns.
pub rank_class-first :
    (rr : ℕ) (c : TargetHealth) (l : List RankedTarget)
    → 0 < length (select (in_class c) l)
    → first (rank_class rr c l)
      ≡ get_elem? (select (in_class c) l) (rr % length (select (in_class c) l))
rank_class-first rr c l h = first-rotate rr (select (in_class c) l) h
