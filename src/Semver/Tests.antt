-- ===== src/Semver/Tests.antt =====
-- Versions and their floor at concrete inputs.
use dgx_control_center.Prelude.{
  ℕ, arith, ◌++◌, ◌≡◌, ◌↔◌, refl, true, some, none, codes, split, trim_start, trim_end, number_from,
}
use dgx_control_center.Semver.{
  SemVer, parse_semver, is_version_at_least_floor, cut_suffix, parse_parts, parse_part, all_digits,
}
use dgx_control_center.Semver.Laws.{
  print, parse_semver-print, is_version_at_least_floor_lem, IsAtLeast,
}

abbrev release : SemVer
release = record { major = 1; minor = 20; patch = 3 }

-- `Number` on what it reads exactly.
abbrev exact : ℕ → ℕ
exact n = n

-- The prerelease of a version is its version, and no version has four numbers.
four_numbers : parse_semver exact (codes "1.2.3.4") ≡ none
unfolding parse_semver parse_parts parse_part all_digits cut_suffix split trim_start trim_end
    number_from
four_numbers = refl

prefixed : parse_semver exact (codes " v1.20.3+build ") ≡ some release
unfolding parse_semver parse_parts parse_part all_digits cut_suffix split trim_start trim_end
    number_from
prefixed = refl

parse_semver-print_example : parse_semver exact (print release ++ codes "-rc.1") ≡ some release
parse_semver-print_example =
    parse_semver-print exact release (codes "-rc.1") (λ n low. refl) (omega arith) (omega arith)
      (omega arith) refl

is_version_at_least_floor_lem_example :
    (is_version_at_least_floor exact (codes "0.10.0") (codes "0.2.9") ≡ true) ↔ (
      (v : SemVer) × (f : SemVer) × (parse_semver exact (codes "0.10.0") ≡ some v)
      × (parse_semver exact (codes "0.2.9") ≡ some f)
      × IsAtLeast v f)
is_version_at_least_floor_lem_example =
    is_version_at_least_floor_lem exact (codes "0.10.0") (codes "0.2.9")
