-- ===== src/Semver/Laws.antt =====
-- shared/src/semver.ts: printed versions read back, and the floor is an order.
use mathlib.Core.List.{append-nil}
use dgx_control_center.Prelude.{
  ℕ, ◌≡◌, ◌⊎◌, inl, inr, refl, sym, ap, ◌∙◌, ◌<◌, ◌≤◌, ◌↔◌, subst, Option-cases, true, false, ◌||◌,
  some, List, [], ◌∷◌, ◌++◌, ◌==◌, arith, trim, trim_end, split, is_digit, decimal, All, All-append,
  number_from,
}
use dgx_control_center.Prelude.Texts.{
  NotSpace, IsDigit, trim_start-head, trim_end-append, split-free, split-append, decimal-IsDigit,
  trim_end-nil, number_from-decimal, decimal-cons,
}
use dgx_control_center.Semver.{
  SemVer, strip_v, cut_suffix, all_digits, parse_part, parse_parts, parse_semver, compare_semver,
  is_version_at_least_floor, at_least_zero,
}

-- `${major}.${minor}.${patch}`
abbrev pub print : SemVer → List ℕ
print v = decimal v.major ++ b'.' ∷ (decimal v.minor ++ b'.' ∷ decimal v.patch)

-- A prerelease or build suffix: nothing, or a text that begins with `-` or `+`.
abbrev pub IsSuffix : List ℕ → Type 0
IsSuffix [] = Unit
IsSuffix (c ∷ cs) = (c == b'-' || c == b'+') ≡ true

-- What stands in a printed version: digits and dots.
abbrev IsBody : ℕ → Type 0
IsBody c = (c == b'.' || is_digit c) ≡ true

All-imp : {P Q : ℕ → Type 0} (f : (c : ℕ) → P c → Q c) (w : List ℕ) → All P w → All Q w
All-imp f [] hs = tt
All-imp f (c ∷ w) (h, hs) = (f c h, All-imp f w hs)

IsBody-digit : (c : ℕ) → IsDigit c → IsBody c
IsBody-digit c h = ground arith

IsBody-NotSpace : (c : ℕ) → IsBody c → NotSpace c
IsBody-NotSpace c h = ground arith

print-IsBody : (v : SemVer) → All IsBody (print v)
print-IsBody v =
    let digits : (n : ℕ) → All IsBody (decimal n) =
      λ n. All-imp IsBody-digit (decimal n) (decimal-IsDigit n) in
    All-append IsBody (decimal v.major) (b'.' ∷ (decimal v.minor ++ b'.' ∷ decimal v.patch))
      (digits v.major)
      (
        refl,
        All-append IsBody (decimal v.minor) (b'.' ∷ decimal v.patch) (digits v.minor)
            (refl, digits v.patch),
      )

cut_suffix-append : (w s : List ℕ) → All IsBody w → cut_suffix (w ++ s) ≡ w ++ cut_suffix s
unfolding cut_suffix
cut_suffix-append [] s hs = refl
cut_suffix-append (c ∷ w) s (h, hs) =
    let other : (c == b'-' || c == b'+') ≡ false = ground arith in
    rw other (ap (◌∷◌ c) (cut_suffix-append w s hs))

cut_suffix-trim_end : (s : List ℕ) → IsSuffix s → cut_suffix (trim_end s) ≡ []
unfolding cut_suffix
cut_suffix-trim_end [] h = ap cut_suffix trim_end-nil
cut_suffix-trim_end (c ∷ cs) h =
    ap cut_suffix (trim_end-append (c ∷ []) cs (ground arith, tt)) ∙ rw h refl

all_digits_lem : (w : List ℕ) → All IsDigit w → all_digits w ≡ true
unfolding all_digits
all_digits_lem [] hs = refl
all_digits_lem (c ∷ w) (h, hs) = rw h (all_digits_lem w hs)

parse_part-cons :
    (to_number : ℕ → ℕ) (w : List ℕ) (c : ℕ) (cs : List ℕ)
    → w ≡ c ∷ cs
    → All IsDigit w
    → parse_part to_number w ≡ some (to_number (number_from 0 w))
unfolding parse_part
parse_part-cons to_number w c cs e hs =
    let digits : all_digits (c ∷ cs) ≡ true = ap all_digits (sym e) ∙ all_digits_lem w hs in
    ground arith

parse_part-decimal :
    (to_number : ℕ → ℕ) (n : ℕ) → to_number n ≡ n → parse_part to_number (decimal n) ≡ some n
parse_part-decimal to_number n exact =
    let (c, cs, e) = decimal-cons n in
    parse_part-cons to_number (decimal n) c cs e (decimal-IsDigit n)
    ∙ ap (λ m. some (to_number m)) (number_from-decimal n)
    ∙ ap some exact

digit_dot : (c : ℕ) → IsDigit c → (c == b'.') ≡ false
digit_dot c h = ground arith

split-print :
    (v : SemVer) → split b'.' (print v) ≡ decimal v.major ∷ decimal v.minor ∷ decimal v.patch ∷ []
split-print v =
    let free : (n : ℕ) → All (λ c. (c == b'.') ≡ false) (decimal n) =
      λ n. All-imp digit_dot (decimal n) (decimal-IsDigit n) in
    split-append b'.' (decimal v.major) (decimal v.minor ++ b'.' ∷ decimal v.patch) (free v.major)
    ∙ ap (◌∷◌ (decimal v.major)) (
        split-append b'.' (decimal v.minor) (decimal v.patch) (free v.minor)
        ∙ ap (◌∷◌ (decimal v.minor)) (split-free b'.' (decimal v.patch) (free v.patch)))

-- The first character of a text of digits and dots is no `v` and no white space.
trim-body :
    (c : ℕ) (cs s : List ℕ)
    → All IsBody (c ∷ cs)
    → strip_v (trim (c ∷ cs ++ s)) ≡ c ∷ cs ++ trim_end s
trim-body c cs s (h, hs) =
    let all_solid = All-imp IsBody-NotSpace (c ∷ cs) (h, hs) in
    let other : (c == b'v' || c == b'V') ≡ false = ground arith in
    ap (λ t. strip_v (trim_end t)) (trim_start-head c (cs ++ s) all_solid.0)
    ∙ ap strip_v (trim_end-append (c ∷ cs) s all_solid)
    ∙ rw other refl

core : (v : SemVer) (s : List ℕ) → IsSuffix s → cut_suffix (strip_v (trim (print v ++ s))) ≡ print v
core v s h =
    let (c, ds, e) = decimal-cons v.major in
    let cs = ds ++ b'.' ∷ (decimal v.minor ++ b'.' ∷ decimal v.patch) in
    let same : print v ≡ c ∷ cs =
      ap (λ t. t ++ b'.' ∷ (decimal v.minor ++ b'.' ∷ decimal v.patch)) e in
    let body : All IsBody (c ∷ cs) = subst (All IsBody) same (print-IsBody v) in
    ap (λ t. cut_suffix (strip_v (trim (t ++ s)))) same
    ∙ ap cut_suffix (trim-body c cs s body)
    ∙ cut_suffix-append (c ∷ cs) (trim_end s) body
    ∙ ap (◌++◌ (c ∷ cs)) (cut_suffix-trim_end s h)
    ∙ append-nil (c ∷ cs)
    ∙ sym same

-- Number.MAX_SAFE_INTEGER
abbrev pub max_safe_integer : ℕ
max_safe_integer = 9007199254740991

-- A version whose three numbers are at most 2 ^ 53 - 1, where `Number` is exact, parses from their
-- print, with or without a prerelease or build suffix, to exactly those numbers.
pub parse_semver-print :
    (to_number : ℕ → ℕ) (v : SemVer) (s : List ℕ)
    → ((n : ℕ) → n ≤ max_safe_integer → to_number n ≡ n)
    → v.major ≤ max_safe_integer
    → v.minor ≤ max_safe_integer
    → v.patch ≤ max_safe_integer
    → IsSuffix s
    → parse_semver to_number (print v ++ s) ≡ some v
unfolding parse_semver parse_parts
parse_semver-print to_number v s exact major minor patch h =
    let cut : split b'.' (cut_suffix (strip_v (trim (print v ++ s))))
        ≡ decimal v.major ∷ decimal v.minor ∷ decimal v.patch ∷ [] =
      ap (split b'.') (core v s h) ∙ split-print v in
    let part : (n : ℕ) → n ≤ max_safe_integer → parse_part to_number (decimal n) ≡ some n =
      λ n low. parse_part-decimal to_number n (exact n low) in
    rw (cut, part v.major major, part v.minor minor, part v.patch patch) refl

-- Comparison is the lexicographic order: at least means that the first number that differs is larger.
abbrev pub IsAtLeast : SemVer → SemVer → Type 0
IsAtLeast v f =
    (f.major < v.major)
    ⊎ (f.major ≡ v.major) × ((f.minor < v.minor) ⊎ (f.minor ≡ v.minor) × (f.patch ≤ v.patch))

compare_semver_lem : (v f : SemVer) → (at_least_zero (compare_semver v f) ≡ true) ↔ IsAtLeast v f
unfolding compare_semver
compare_semver_lem v f = (λ h. grind arith, λ h. ground arith)

some_inj : {a b : SemVer} → some a ≡ some b → a ≡ b
some_inj e = cc

-- A version satisfies a floor exactly when both parse and the version's numbers are, in the order of
-- their weight, at least the floor's; a version or a floor that does not parse is refused.
pub is_version_at_least_floor_lem :
    (to_number : ℕ → ℕ) (version floor : List ℕ)
    → (is_version_at_least_floor to_number version floor ≡ true) ↔ (
        (v : SemVer) × (f : SemVer) × (parse_semver to_number version ≡ some v)
        × (parse_semver to_number floor ≡ some f)
        × IsAtLeast v f)
unfolding is_version_at_least_floor
is_version_at_least_floor_lem to_number version floor =
    elim (Option-cases (parse_semver to_number version)) [
      | inl e ↦ (λ h. absurd (ground arith), λ (v, f, ev, ef, h). absurd (ground arith))
      | inr (v, ev) ↦ elim (Option-cases (parse_semver to_number floor)) [
        | inl e ↦ (λ h. absurd (ground arith), λ (v, f, ev, ef, h). absurd (ground arith))
        | inr (f, ef) ↦ (
          λ h. (v, f, ev, ef, (compare_semver_lem v f).0 (ground arith)),
          λ (w, g, ew, eg, h). let wins = (compare_semver_lem w g).1 h in ground arith,
        )
      ]
    ]
