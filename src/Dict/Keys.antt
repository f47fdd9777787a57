-- ===== src/Dict/Keys.antt =====
-- Maps whose keys are distinct, as those of `Map` are: filtering the entries filters the values.
use dgx_control_center.Prelude.{
  String, ◌≡◌, refl, sym, ◌∙◌, inl, inr, Bool, Option, none, some, [], ◌∷◌, arith, eq_iff, ◌===◌,
  ===_refl, subst, if◌then◌else◌, select, Bool-cases, String-cases, All,
}
use dgx_control_center.Dict.{Dict, get, put, remove, get-remove, get-put_ne}

module _ {ℓ} {V : Type ℓ} where
  abbrev pub IsDistinct : Dict V → Type ℓ
  IsDistinct [] = Unit
  IsDistinct ((k, v) ∷ m) = (get k m ≡ none) × IsDistinct m

  pub put-IsDistinct : (k : String) (v : V) (m : Dict V) → IsDistinct m → IsDistinct (put k v m)
  unfolding put get
  put-IsDistinct k v [] h = (refl, tt)
  put-IsDistinct k v ((j, w) ∷ m) (fresh, h) = elim (String-cases j k) [
    | inl same ↦ rw ((eq_iff j k).1 same) (fresh, h)
    | inr (differ, other) ↦
        rw other (get-put_ne k j v m (λ e. differ (sym e)) ∙ fresh, put-IsDistinct k v m h)
  ]

  pub remove-IsDistinct : (k : String) (m : Dict V) → IsDistinct m → IsDistinct (remove k m)
  unfolding remove
  remove-IsDistinct k [] h = tt
  remove-IsDistinct k ((j, w) ∷ m) (fresh, h) = elim (Bool-cases (j === k)) [
    | inl same ↦ rw same (remove-IsDistinct k m h)
    | inr other ↦ rw other (ground (arith, get-remove k j m), remove-IsDistinct k m h)
  ]

  -- The entries whose value passes the test.
  abbrev pub keep : (V → Bool) → Dict V → Dict V
  keep p m = select (λ e. p e.1) m

  keep_missing : (p : V → Bool) (k : String) (m : Dict V) → get k m ≡ none → get k (keep p m) ≡ none
  unfolding get
  keep_missing p k [] h = refl
  keep_missing p k ((j, w) ∷ m) h = ground (arith, keep_missing p k m)

  pub keep-IsDistinct : (p : V → Bool) (m : Dict V) → IsDistinct m → IsDistinct (keep p m)
  keep-IsDistinct p [] h = tt
  keep-IsDistinct p ((j, w) ∷ m) (fresh, h) = elim (Bool-cases (p w)) [
    | inl e ↦ rw e (keep_missing p j m fresh, keep-IsDistinct p m h)
    | inr e ↦ rw e (keep-IsDistinct p m h)
  ]

  -- What stands under a key after the filtering: the value, if it passes.
  abbrev pub passing : (V → Bool) → Option V → Option V
  passing p none = none
  passing p (some v) = if p v then some v else none

  pub get-keep :
      (p : V → Bool) (k : String) (m : Dict V)
      → IsDistinct m
      → get k (keep p m) ≡ passing p (get k m)
  unfolding get
  get-keep p k [] h = refl
  get-keep p k ((j, w) ∷ m) (fresh, h) =
      ground (arith, get-keep p k m h, eq_iff j k, keep_missing p j m fresh)

  -- What holds of each value that a key finds holds of each entry, and back.
  pub get-All {κ} :
      (P : V → Type κ) (m : Dict V)
      → IsDistinct m
      → ((k : String) (v : V) → get k m ≡ some v → P v)
      → All (λ e. P e.1) m
  unfolding get
  get-All P [] d h = tt
  get-All P ((j, w) ∷ m) (fresh, d) h =
      (h j w (rw (===_refl j) refl), get-All P m d (λ k v e. h k v (ground (arith, eq_iff j k))))

  pub All-get {κ} :
      (P : V → Type κ) (m : Dict V) (k : String) {v : V}
      → All (λ e. P e.1) m
      → get k m ≡ some v
      → P v
  unfolding get
  All-get P [] k hs e = absurd (ground arith)
  All-get P ((j, w) ∷ m) k {v} (h, hs) e = elim (Bool-cases (j === k)) [
    | inl same ↦ subst P (ground arith) h
    | inr other ↦ All-get P m k hs (ground arith)
  ]

  pub put-All {κ} :
      (P : V → Type κ) (k : String) (v : V) (m : Dict V)
      → P v
      → All (λ e. P e.1) m
      → All (λ e. P e.1) (put k v m)
  unfolding put
  put-All P k v [] h hs = (h, tt)
  put-All P k v ((j, w) ∷ m) h (x, hs) = elim (Bool-cases (j === k)) [
    | inl same ↦ rw same (h, hs)
    | inr other ↦ rw other (x, put-All P k v m h hs)
  ]

  pub remove-All {κ} :
      (P : V → Type κ) (k : String) (m : Dict V)
      → All (λ e. P e.1) m
      → All (λ e. P e.1) (remove k m)
  unfolding remove
  remove-All P k [] hs = tt
  remove-All P k ((j, w) ∷ m) (x, hs) = elim (Bool-cases (j === k)) [
    | inl same ↦ rw same (remove-All P k m hs)
    | inr other ↦ rw other (x, remove-All P k m hs)
  ]
