-- ===== src/Semver.antt =====
-- shared/src/semver.ts and shared/src/version.ts: the versions of the agents and their floor.
pub mod Laws
mod Tests
use dgx_control_center.Prelude.{
  String, ℕ, zero, suc, Bool, true, false, not, ◌||◌, Option, none, some, List, [], ◌∷◌, ℤ, pos,
  negsuc, trim, split, is_digit, number_from, codes, ltb, ◌==◌, if◌then◌else◌,
}

pub record SemVer : Type 0 where
  pub major : ℕ
  pub minor : ℕ
  pub patch : ℕ

-- PROTOCOL_VERSION
abbrev pub protocol_version : ℕ
protocol_version = 1

-- MIN_AGENT_VERSION
abbrev pub min_agent_version : String
min_agent_version = "0.1.0"

-- .replace(/^[vV]/, "")
abbrev pub strip_v : List ℕ → List ℕ
strip_v [] = []
strip_v (c ∷ cs) = if c == b'v' || c == b'V' then cs else c ∷ cs

-- .split(/[-+]/)[0]
unfoldable pub cut_suffix : List ℕ → List ℕ
cut_suffix [] = []
cut_suffix (c ∷ cs) = let rest = cut_suffix cs in if c == b'-' || c == b'+' then [] else c ∷ rest

unfoldable pub all_digits : List ℕ → Bool
all_digits [] = true
all_digits (c ∷ cs) = if is_digit c then all_digits cs else false

-- The padding with zeros, for at most three numbers.
abbrev pub pad : List ℕ → SemVer
pad (a ∷ b ∷ c ∷ cs) = record { major = a; minor = b; patch = c }
pad (a ∷ b ∷ []) = record { major = a; minor = b; patch = 0 }
pad (a ∷ []) = record { major = a; minor = 0; patch = 0 }
pad [] = record { major = 0; minor = 0; patch = 0 }

-- parts.length === 0 || parts.length > 3
abbrev pub bad_count : List (List ℕ) → Bool
bad_count [] = true
bad_count (a ∷ b ∷ c ∷ d ∷ ds) = true
bad_count _ = false

-- The test of one key of `compareSemver`, before the result of the later keys.
abbrev compare_key : ℕ → ℕ → ℤ → ℤ
compare_key a b later = if a == b then later else (if ltb a b then negsuc 0 else pos 1)

unfoldable pub compare_semver : SemVer → SemVer → ℤ
compare_semver a b =
    compare_key a.major b.major (compare_key a.minor b.minor (compare_key a.patch b.patch (pos 0)))

-- n >= 0
abbrev pub at_least_zero : ℤ → Bool
at_least_zero (pos n) = true
at_least_zero (negsuc n) = false

abbrev pub at_least : Option SemVer → Option SemVer → Bool
at_least (some v) (some f) = at_least_zero (compare_semver v f)
at_least _ _ = false

-- `to_number n` is what `Number` makes of digits that write `n`: `n` itself up to 2 ^ 53 - 1, the
-- nearest double from there on, with infinity as some number above all doubles.
module _ (to_number : ℕ → ℕ) where
  -- Number(part) of a part that matches /^\d+$/.
  unfoldable pub parse_part : List ℕ → Option ℕ
  parse_part [] = none
  parse_part (c ∷ cs) =
      if all_digits (c ∷ cs) then some (to_number (number_from 0 (c ∷ cs))) else none

  -- The loop over the parts.
  unfoldable pub parse_parts : List (List ℕ) → Option (List ℕ)
  parse_parts [] = some []
  parse_parts (part ∷ parts) =
      let rest = parse_parts parts in
      elim (parse_part part) [
        | none ↦ none
        | some num ↦ elim rest [ none ↦ none | some nums ↦ some (num ∷ nums) ]
      ]

  -- parseSemver
  unfoldable pub parse_semver : List ℕ → Option SemVer
  parse_semver input =
      let parts = split b'.' (cut_suffix (strip_v (trim input))) in
      if bad_count parts
      then none
      else elim (parse_parts parts) [ none ↦ none | some nums ↦ some (pad nums) ]

  unfoldable pub is_version_at_least_floor : List ℕ → List ℕ → Bool
  is_version_at_least_floor version floor = at_least (parse_semver version) (parse_semver floor)
