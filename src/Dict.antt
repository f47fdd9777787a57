-- ===== src/Dict.antt =====
-- `Map` and plain objects with string keys, as the program uses them: entries in the order of
-- insertion, where setting a key that is there keeps its place.
pub mod Keys
use dgx_control_center.Prelude.{
  String, ◌≡◌, refl, ◌≢◌, Bool, Option, none, some, List, [], ◌∷◌, map, arith, eq_iff, ◌===◌,
  if◌then◌else◌, ===_refl, String-cases, find, Bool-cases, inl, inr, false,
}

abbrev pub Dict {ℓ} : Type ℓ → Type ℓ
Dict V = List (String × V)

module _ {ℓ} {V : Type ℓ} where
  -- m.get(k)
  unfoldable pub get : String → Dict V → Option V
  get k [] = none
  get k ((j, v) ∷ m) = if j === k then some v else get k m

  -- m.set(k, v)
  unfoldable pub put : String → V → Dict V → Dict V
  put k v [] = (k, v) ∷ []
  put k v ((j, w) ∷ m) = if j === k then (j, v) ∷ m else (j, w) ∷ put k v m

  -- m.delete(k)
  unfoldable pub remove : String → Dict V → Dict V
  remove k [] = []
  remove k ((j, w) ∷ m) = let rest = remove k m in if j === k then rest else (j, w) ∷ rest

  -- [...m.values()]
  abbrev pub values : Dict V → List V
  values m = map (λ e. e.1) m

  pub get-put :
      (k j : String) (v : V) (m : Dict V)
      → get j (put k v m) ≡ (if k === j then some v else get j m)
  unfolding get put
  get-put k j v [] = refl
  get-put k j v ((i, w) ∷ m) = ground (arith, eq_iff k j, eq_iff i k, eq_iff i j, get-put k j v m)

  pub get-remove :
      (k j : String) (m : Dict V) → get j (remove k m) ≡ (if k === j then none else get j m)
  unfolding get remove
  get-remove k j [] = ground arith
  get-remove k j ((i, w) ∷ m) = ground (arith, eq_iff k j, eq_iff i k, eq_iff i j, get-remove k j m)

  pub get-put_self : (k : String) (v : V) (m : Dict V) → get k (put k v m) ≡ some v
  get-put_self k v m = simp (get-put, ===_refl)

  pub get-remove_self : (k : String) (m : Dict V) → get k (remove k m) ≡ none
  get-remove_self k m = simp (get-remove, ===_refl)

  pub get-put_ne : (k j : String) (v : V) (m : Dict V) → k ≢ j → get j (put k v m) ≡ get j m
  get-put_ne k j v m h = ground (arith, get-put k j v m, eq_iff k j)

  pub get-remove_ne : (k j : String) (m : Dict V) → k ≢ j → get j (remove k m) ≡ get j m
  get-remove_ne k j m h = ground (arith, get-remove k j m, eq_iff k j)

  -- What a search through the values misses fails the test under every key.
  pub find-values :
      (p : V → Bool) (k : String) (m : Dict V) {v : V}
      → find p (values m) ≡ none
      → get k m ≡ some v
      → p v ≡ false
  unfolding get
  find-values p k [] h e = cc
  find-values p k ((j, w) ∷ m) {v} h e = elim (Bool-cases (p w)) [
    | inl hit ↦ cc (rw hit at h)
    | inr miss ↦ elim (String-cases j k) [
      | inl same ↦ ground (arith, eq_iff j k)
      | inr (differ, other) ↦ find-values p k m (rw miss at h) (ground arith)
    ]
  ]
