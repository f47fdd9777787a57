-- ===== src/Prelude/Sorting.antt =====
-- `Array.prototype.sort` with a comparator, which is stable: insertion behind the elements that
-- compare as equal. `before y x` says that `y` compares as strictly less than `x`.
use mathlib.Core.Path.{◌≡◌}
use mathlib.Core.Logic.{inl, inr}
use mathlib.Core.Bool.{Bool, true, false}
use mathlib.Core.List.{List, [], ◌∷◌, Perm}
use mathlib.Core.List.Perm
use dgx_control_center.Prelude.Lists.{All}
use dgx_control_center.Prelude.Tests.{if◌then◌else◌, Bool-cases}

module _ {ℓ} {A : Type ℓ} (before : A → A → Bool) where
  unfoldable pub insert_sorted : A → List A → List A
  insert_sorted x [] = x ∷ []
  insert_sorted x (y ∷ ys) =
      let rest = insert_sorted x ys in if before y x then y ∷ rest else x ∷ y ∷ ys

  unfoldable pub sort : List A → List A
  unfolding insert_sorted
  sort [] = []
  sort (x ∷ xs) = insert_sorted x (sort xs)

  -- No later element is strictly less than an earlier one.
  abbrev pub IsSorted : List A → Type 0
  IsSorted [] = Unit
  IsSorted (x ∷ xs) = All (λ y. before y x ≡ false) xs × IsSorted xs

  insert_sorted-perm : (x : A) (ys : List A) → Perm (insert_sorted x ys) (x ∷ ys)
  unfolding insert_sorted
  insert_sorted-perm x [] = Perm.refl (x ∷ [])
  insert_sorted-perm x (y ∷ ys) = elim (Bool-cases (before y x)) [
    | inl less ↦ rw less (Perm.trans (Perm.cons y (insert_sorted-perm x ys)) (Perm.swap x y ys))
    | inr not_less ↦ rw not_less (Perm.refl (x ∷ y ∷ ys))
  ]

  pub sort-perm : (xs : List A) → Perm (sort xs) xs
  unfolding sort
  sort-perm [] = Perm.refl []
  sort-perm (x ∷ xs) = Perm.trans (insert_sorted-perm x (sort xs)) (Perm.cons x (sort-perm xs))

  module _ (asym : (x y : A) → before y x ≡ true → before x y ≡ false)
      (trans : (x y z : A) → before y x ≡ false → before z y ≡ false → before z x ≡ false) where
    All-insert_sorted :
        (w x : A) (ys : List A)
        → before x w ≡ false
        → All (λ y. before y w ≡ false) ys
        → All (λ y. before y w ≡ false) (insert_sorted x ys)
    unfolding insert_sorted
    All-insert_sorted w x [] p _ = (p, tt)
    All-insert_sorted w x (y ∷ ys) p (q, h) = elim (Bool-cases (before y x)) [
      | inl less ↦ rw less (q, All-insert_sorted w x ys p h)
      | inr not_less ↦ rw not_less (p, (q, h))
    ]

    All-trans :
        (x y : A) (zs : List A)
        → before y x ≡ false
        → All (λ z. before z y ≡ false) zs
        → All (λ z. before z x ≡ false) zs
    All-trans x y [] p _ = tt
    All-trans x y (z ∷ zs) p (q, h) = (trans x y z p q, All-trans x y zs p h)

    insert_sorted-IsSorted : (x : A) (ys : List A) → IsSorted ys → IsSorted (insert_sorted x ys)
    unfolding insert_sorted
    insert_sorted-IsSorted x [] _ = (tt, tt)
    insert_sorted-IsSorted x (y ∷ ys) (h, s) = elim (Bool-cases (before y x)) [
      | inl less ↦
          rw less (All-insert_sorted y x ys (asym x y less) h, insert_sorted-IsSorted x ys s)
      | inr not_less ↦ rw not_less ((not_less, All-trans x y ys not_less h), (h, s))
    ]

    pub sort-IsSorted : (xs : List A) → IsSorted (sort xs)
    unfolding sort
    sort-IsSorted [] = tt
    sort-IsSorted (x ∷ xs) = insert_sorted-IsSorted x (sort xs) (sort-IsSorted xs)
