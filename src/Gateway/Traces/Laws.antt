-- ===== src/Gateway/Traces/Laws.antt =====
-- server/src/stores/tracesStore.ts: what a list of traces has, and what pruning leaves.
use dgx_control_center.Prelude.{
  ℕ, zero, suc, ◌+◌, ◌≤◌, ◌≡◌, refl, inl, inr, Bool, true, false, List, [], ◌∷◌, arith, length,
  length-take, length-select, take, select, All, Bool-cases,
}
use dgx_control_center.Prelude.Sorting.{IsSorted, sort, insert_sorted, sort-IsSorted}
use dgx_control_center.Gateway.Traces.{
  TraceRecord, TraceListFilter, TraceLimits, trace_matches, limit_of, newer, newest_first,
  list_traces, is_young, prune,
}

module _ {ℓ κ} {A : Type ℓ} (P : A → Type κ) where
  All-take : (n : ℕ) (xs : List A) → All P xs → All P (take n xs)
  All-take zero xs hs = tt
  All-take (suc n) [] hs = tt
  All-take (suc n) (x ∷ xs) (h, hs) = (h, All-take n xs hs)

  All-insert_sorted :
      (before : A → A → Bool) (x : A) (ys : List A)
      → P x
      → All P ys
      → All P (insert_sorted before x ys)
  unfolding insert_sorted
  All-insert_sorted before x [] h hs = (h, tt)
  All-insert_sorted before x (y ∷ ys) h (k, hs) = elim (Bool-cases (before y x)) [
    | inl less ↦ rw less (k, All-insert_sorted before x ys h hs)
    | inr not_less ↦ rw not_less (h, (k, hs))
  ]

  All-sort : (before : A → A → Bool) (xs : List A) → All P xs → All P (sort before xs)
  unfolding sort
  All-sort before [] hs = tt
  All-sort before (x ∷ xs) (h, hs) =
      All-insert_sorted before x (sort before xs) h (All-sort before xs hs)

module _ {ℓ} {A : Type ℓ} where
  All-select_sound : (p : A → Bool) (xs : List A) → All (λ x. p x ≡ true) (select p xs)
  All-select_sound p [] = tt
  All-select_sound p (x ∷ xs) = elim (Bool-cases (p x)) [
    | inl e ↦ rw e (e, All-select_sound p xs)
    | inr e ↦ rw e (All-select_sound p xs)
  ]

  length-insert_sorted :
      (before : A → A → Bool) (x : A) (ys : List A)
      → length (insert_sorted before x ys) ≡ suc (length ys)
  unfolding insert_sorted
  length-insert_sorted before x [] = refl
  length-insert_sorted before x (y ∷ ys) = ground (arith, length-insert_sorted before x ys)

  length-sort : (before : A → A → Bool) (xs : List A) → length (sort before xs) ≡ length xs
  unfolding sort
  length-sort before [] = refl
  length-sort before (x ∷ xs) =
      omega (arith, length-insert_sorted before x (sort before xs), length-sort before xs)

IsSorted-take : (n : ℕ) (xs : List TraceRecord) → IsSorted newer xs → IsSorted newer (take n xs)
IsSorted-take zero xs s = tt
IsSorted-take (suc n) [] s = tt
IsSorted-take (suc n) (x ∷ xs) (h, s) =
    (All-take (λ y. newer y x ≡ false) n xs h, IsSorted-take n xs s)

newest_first-IsSorted : (rows : List TraceRecord) → IsSorted newer (newest_first rows)
newest_first-IsSorted rows =
    sort-IsSorted newer (λ x y h. ground arith) (λ x y z p q. ground arith) rows

-- A list of traces has at most a thousand rows, all of which pass the filter, the newest first.
pub list_traces_lem :
    (f : TraceListFilter) (rows : List TraceRecord)
    → (length (list_traces f rows) ≤ 1000)
      × All (λ r. trace_matches f r ≡ true) (list_traces f rows)
      × IsSorted newer (list_traces f rows)
unfolding list_traces
list_traces_lem f rows =
    let picked = select (trace_matches f) rows in
    (
      ground (arith, length-take (limit_of f.limit) (newest_first picked)),
      All-take (λ r. trace_matches f r ≡ true) (limit_of f.limit) (newest_first picked)
          (All-sort (λ r. trace_matches f r ≡ true) newer picked
            (All-select_sound (trace_matches f) rows)),
      IsSorted-take (limit_of f.limit) (newest_first picked) (newest_first-IsSorted picked),
    )

All-imp :
    (now max_age_ms : ℕ) (rows : List TraceRecord)
    → All (λ r. is_young now max_age_ms r ≡ true) rows
    → All (λ r. now ≤ r.ts + max_age_ms) rows
All-imp now max_age_ms [] hs = tt
All-imp now max_age_ms (r ∷ rows) (h, hs) = (ground arith, All-imp now max_age_ms rows hs)

-- Pruning leaves at most the allowed number of rows, none of them too old, and it reports exactly by
-- how many rows the table has shrunk.
pub prune_lem :
    (limits : TraceLimits) (now : ℕ) (rows : List TraceRecord)
    → (length (prune limits now rows).0 ≤ limits.max_rows)
      × All (λ r. now ≤ r.ts + limits.max_age_ms) (prune limits now rows).0
      × (length (prune limits now rows).0 + (prune limits now rows).1 ≡ length rows)
unfolding prune
prune_lem limits now rows =
    let young = select (is_young now limits.max_age_ms) rows in
    let cut = length-take limits.max_rows (newest_first young) in
    let same = length-sort newer young in
    let fewer = length-select (is_young now limits.max_age_ms) rows in
    (
      omega (arith, cut),
      All-imp now limits.max_age_ms (take limits.max_rows (newest_first young)) (
          All-take (λ r. is_young now limits.max_age_ms r ≡ true) limits.max_rows
            (newest_first young)
            (All-sort (λ r. is_young now limits.max_age_ms r ≡ true) newer young
              (All-select_sound (is_young now limits.max_age_ms) rows))),
      omega (arith, cut, same, fewer),
    )
