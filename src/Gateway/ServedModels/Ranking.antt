-- ===== src/Gateway/ServedModels/Ranking.antt =====
-- server/src/gateway/servedModels.ts: the ranked chain is a rearrangement of the targets, healthy
-- first, and rotates within a class.

use mathlib.Core.List.{Perm, append-nil, perm_append_comm, perm_middle}
use mathlib.Core.List.Perm
use dgx_control_center.Prelude.{
  ℕ, zero, suc, ◌%◌, ◌≤◌, ◌≡◌, refl, sym, ap, subst, inl, inr, Bool, true, false, List, [], ◌∷◌,
  ◌++◌, arith, length, take, drop, select, ltb, Bool-cases, take-append-drop, All, All-append,
}
use dgx_control_center.Prelude.Sorting.{IsSorted}
use dgx_control_center.Gateway.ServedModels.{
  ServedModelTarget, TargetHealth, healthy, degraded, unknown, down, health_rank, RankedTarget,
  same_health, in_class, rotate, grade, rank_class, rank_targets,
}

rotate-perm : (rr : ℕ) (l : List RankedTarget) → Perm (rotate rr l) l
unfolding rotate
rotate-perm rr l = elim (Bool-cases (ltb 1 (length l))) [
  | inl many ↦ rw many (
      subst (λ m. Perm (drop (rr % length l) l ++ take (rr % length l) l) m)
        (take-append-drop (rr % length l) l)
        (perm_append_comm (drop (rr % length l) l) (take (rr % length l) l)))
  | inr few ↦ rw few (Perm.refl l)
]

abbrev by_class : List RankedTarget → List RankedTarget
by_class l =
    select (in_class healthy) l
    ++ (select (in_class degraded) l ++ (select (in_class unknown) l ++ select (in_class down) l))

-- The class lists of `x ∷ l` are those of `l` with `x` put into one of them.
module _ (x : RankedTarget) (l : List RankedTarget) (ih : Perm (by_class l) l) where
  moved :
      (m : List RankedTarget)
      → by_class (x ∷ l) ≡ m
      → Perm m (x ∷ by_class l)
      → Perm (by_class (x ∷ l)) (x ∷ l)
  moved m e p = subst (λ k. Perm k (x ∷ l)) (sym e) (Perm.trans p (Perm.cons x ih))

  place :
      (c : TargetHealth)
      → x.health ≡ c
      → (h d u n : List RankedTarget)
      → (select (in_class healthy) l ≡ h)
        × (select (in_class degraded) l ≡ d)
        × (select (in_class unknown) l ≡ u)
        × (select (in_class down) l ≡ n)
      → (m : List RankedTarget) × (by_class (x ∷ l) ≡ m) × Perm m (x ∷ (h ++ (d ++ (u ++ n))))
  place healthy e h d u n (eh, ed, eu, en) = (x ∷ (h ++ (d ++ (u ++ n))), ground arith, Perm.refl _)
  place degraded e h d u n (eh, ed, eu, en) =
      (h ++ (x ∷ (d ++ (u ++ n))), ground arith, perm_middle h (d ++ (u ++ n)))
  place unknown e h d u n (eh, ed, eu, en) = (
    h ++ (d ++ (x ∷ (u ++ n))),
    ground arith,
    Perm.trans (Perm.append_left h (perm_middle d (u ++ n))) (perm_middle h (d ++ (u ++ n))),
  )
  place down e h d u n (eh, ed, eu, en) = (
    h ++ (d ++ (u ++ (x ∷ n))),
    ground arith,
    Perm.trans (Perm.append_left h (Perm.append_left d (perm_middle u n)))
        (Perm.trans (Perm.append_left h (perm_middle d (u ++ n))) (perm_middle h (d ++ (u ++ n)))),
  )

  by_class-perm_cons : Perm (by_class (x ∷ l)) (x ∷ l)
  by_class-perm_cons =
      let (m, e, p) = place x.health refl _ _ _ _ (refl, refl, refl, refl) in moved m e p

by_class-perm : (l : List RankedTarget) → Perm (by_class l) l
by_class-perm [] = Perm.refl []
by_class-perm (x ∷ l) = by_class-perm_cons x l (by_class-perm l)

-- The chain is a rearrangement of the graded targets: none is lost, added or tried twice.
pub rank_targets-perm :
    (targets : List ServedModelTarget) (health_of : ServedModelTarget → TargetHealth) (rr : ℕ)
    → Perm (rank_targets targets health_of rr) (grade health_of targets)
unfolding rank_targets
rank_targets-perm targets health_of rr =
    let l = grade health_of targets in
    Perm.trans
      (Perm.append (rotate-perm rr (select (in_class healthy) l)) (
        Perm.append (rotate-perm rr (select (in_class degraded) l)) (
          Perm.append (rotate-perm rr (select (in_class unknown) l))
            (rotate-perm rr (select (in_class down) l)))))
      (by_class-perm l)

-- All targets of a list have one rank, or one not below it.
abbrev Flat : ℕ → List RankedTarget → Type 0
Flat k l = All (λ t. health_rank t.health ≡ k) l

abbrev AtLeast : ℕ → List RankedTarget → Type 0
AtLeast k l = All (λ t. k ≤ health_rank t.health) l

All-take {ℓ κ} : {A : Type ℓ} (P : A → Type κ) (n : ℕ) (l : List A) → All P l → All P (take n l)
All-take P zero l h = tt
All-take P (suc n) [] h = tt
All-take P (suc n) (x ∷ l) (p, h) = (p, All-take P n l h)

All-drop {ℓ κ} : {A : Type ℓ} (P : A → Type κ) (n : ℕ) (l : List A) → All P l → All P (drop n l)
All-drop P zero l h = h
All-drop P (suc n) [] h = tt
All-drop P (suc n) (x ∷ l) (p, h) = All-drop P n l h

All-rotate :
    (P : RankedTarget → Type 0) (rr : ℕ) (l : List RankedTarget) → All P l → All P (rotate rr l)
unfolding rotate
All-rotate P rr l h = elim (Bool-cases (ltb 1 (length l))) [
  | inl many ↦ rw many (
      All-append P (drop (rr % length l) l) (take (rr % length l) l)
        (All-drop P (rr % length l) l h) (All-take P (rr % length l) l h))
  | inr few ↦ rw few h
]

same_health-eq : (a b : TargetHealth) → same_health a b ≡ true → a ≡ b
same_health-eq a b h = ground arith

Flat-select :
    (c : TargetHealth) (l : List RankedTarget) → Flat (health_rank c) (select (in_class c) l)
Flat-select c [] = tt
Flat-select c (x ∷ l) = elim (Bool-cases (in_class c x)) [
  | inl e ↦ rw e (ap health_rank (same_health-eq x.health c e), Flat-select c l)
  | inr e ↦ rw e (Flat-select c l)
]

Flat-rank_class :
    (rr : ℕ) (c : TargetHealth) (l : List RankedTarget) → Flat (health_rank c) (rank_class rr c l)
Flat-rank_class rr c l =
    All-rotate (λ t. health_rank t.health ≡ health_rank c) rr (select (in_class c) l)
      (Flat-select c l)

AtLeast-Flat : (j k : ℕ) (l : List RankedTarget) → j ≤ k → Flat k l → AtLeast j l
AtLeast-Flat j k [] h f = tt
AtLeast-Flat j k (x ∷ l) h (e, f) = (omega arith, AtLeast-Flat j k l h f)

abbrev worse : RankedTarget → RankedTarget → Bool
worse y x = ltb (health_rank y.health) (health_rank x.health)

All-worse :
    (k : ℕ) (x : RankedTarget) (l : List RankedTarget)
    → health_rank x.health ≡ k
    → AtLeast k l
    → All (λ y. worse y x ≡ false) l
All-worse k x [] e h = tt
All-worse k x (y ∷ l) e (p, h) = (ground arith, All-worse k x l e h)

IsSorted-append :
    (k : ℕ) (xs ys : List RankedTarget)
    → Flat k xs
    → AtLeast k ys
    → IsSorted worse ys
    → IsSorted worse (xs ++ ys)
IsSorted-append k [] ys f a s = s
IsSorted-append k (x ∷ xs) ys (e, f) a s = (
  All-worse k x (xs ++ ys) e
      (All-append (λ t. k ≤ health_rank t.health) xs ys (AtLeast-Flat k k xs (omega arith) f) a),
  IsSorted-append k xs ys f a s,
)

-- The chain is in order of health: no target comes behind one of a worse grade, where the grades
-- are healthy, degraded, unknown and down from best to worst.
pub rank_targets-IsSorted :
    (targets : List ServedModelTarget) (health_of : ServedModelTarget → TargetHealth) (rr : ℕ)
    → IsSorted
        (λ y x. ltb (health_rank y.health) (health_rank x.health))
        (rank_targets targets health_of rr)
unfolding rank_targets
rank_targets-IsSorted targets health_of rr =
    let l = grade health_of targets in
    let h = rank_class rr healthy l in
    let d = rank_class rr degraded l in
    let u = rank_class rr unknown l in
    let n = rank_class rr down l in
    let fn = Flat-rank_class rr down l in
    let fu = Flat-rank_class rr unknown l in
    let fd = Flat-rank_class rr degraded l in
    let two = λ (k : ℕ) (p : k ≤ 2).
      All-append (λ t. k ≤ health_rank t.health) u n (AtLeast-Flat k 2 u p fu)
        (AtLeast-Flat k 3 n (omega arith) fn) in
    let sn : IsSorted worse (n ++ []) = IsSorted-append 3 n [] fn tt tt in
    let sn' : IsSorted worse n = subst (IsSorted worse) (append-nil n) sn in
    let su = IsSorted-append 2 u n fu (AtLeast-Flat 2 3 n (omega arith) fn) sn' in
    let sd = IsSorted-append 1 d (u ++ n) fd (two 1 (omega arith)) su in
    IsSorted-append 0 h (d ++ (u ++ n)) (Flat-rank_class rr healthy l)
      (All-append (λ t. 0 ≤ health_rank t.health) d (u ++ n) (AtLeast-Flat 0 1 d (omega arith) fd)
        (two 0 (omega arith)))
      sd
