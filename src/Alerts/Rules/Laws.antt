-- ===== src/Alerts/Rules/Laws.antt =====
-- server/src/alerts/rules.ts: what an upsert and a removal do to the rule of each id.
use dgx_control_center.Prelude.{
  String, ◌≤◌, ◌≡◌, refl, ◌⊎◌, inl, inr, true, false, not, Option, none, some, List, [], ◌∷◌, ◌++◌,
  arith, eq_iff, Bool-cases, Option-cases, if◌then◌else◌, length, leb, select, ◌===◌, length-append,
}
use dgx_control_center.Alerts.Rules.{AlertRule, max_rules, has_id, get, replace, upsert, remove}

module _ {V : Type 0} where
  abbrev if_some : Option (AlertRule V) → AlertRule V → Option (AlertRule V)
  if_some none rule = none
  if_some (some old) rule = some rule

  get-replace :
      (rule : AlertRule V) (j : String) (rules : List (AlertRule V))
      → get j (replace rule rules)
        ≡ (if rule.id === j then if_some (get rule.id rules) rule else get j rules)
  unfolding get replace
  get-replace rule j [] = ground arith
  get-replace rule j (r ∷ rules) =
      ground (arith, get-replace rule j rules, eq_iff r.id rule.id, eq_iff rule.id j, eq_iff r.id j)

  get-append :
      (rule : AlertRule V) (j : String) (rules : List (AlertRule V))
      → get rule.id rules ≡ none
      → get j (rules ++ rule ∷ []) ≡ (if rule.id === j then some rule else get j rules)
  unfolding get
  get-append rule j [] h = refl
  get-append rule j (r ∷ rules) h =
      ground (arith, get-append rule j rules, eq_iff r.id rule.id, eq_iff rule.id j, eq_iff r.id j)

  length-replace :
      (rule : AlertRule V) (rules : List (AlertRule V)) → length (replace rule rules) ≡ length rules
  unfolding replace
  length-replace rule [] = refl
  length-replace rule (r ∷ rules) = omega (arith, length-replace rule rules)

  get-select :
      (id j : String) (rules : List (AlertRule V))
      → get j (select (λ r. not (has_id id r)) rules) ≡ (if id === j then none else get j rules)
  unfolding get
  get-select id j [] = ground arith
  get-select id j (r ∷ rules) =
      ground (arith, get-select id j rules, eq_iff r.id id, eq_iff id j, eq_iff r.id j)

  -- An upsert either changes nothing, and then the rule is a seed or the cap is reached by a new id;
  -- or it stores the rule, marked as no seed, under its id, whatever rule had the id before, and
  -- leaves the rules of all other ids.
  pub upsert-get :
      (rule : AlertRule V) (rules : List (AlertRule V)) (j : String)
      → ((upsert rule rules).0 ≡ rules)
          × ((rule.seed ≡ true) ⊎ ((get rule.id rules ≡ none) × (max_rules ≤ length rules)))
        ⊎ (rule.seed ≡ false)
          × (get j (upsert rule rules).0
              ≡ (if rule.id === j then some (record rule { seed = false }) else get j rules))
  unfolding upsert
  upsert-get rule rules j = elim (Bool-cases rule.seed) [
    | inl seed ↦ inl (ground arith, inl seed)
    | inr own ↦ elim (Option-cases (get rule.id rules)) [
      | inl absent ↦ elim (Bool-cases (leb max_rules (length rules))) [
        | inl full ↦ inl (ground arith, inr (absent, ground arith))
        | inr room ↦
            inr (own, ground (arith, get-append (record rule { seed = false }) j rules absent))
      ]
      | inr (old, found) ↦
          inr (own, ground (arith, get-replace (record rule { seed = false }) j rules))
    ]
  ]

  -- The cap holds through every upsert and removal.
  pub upsert-length :
      (rule : AlertRule V) (rules : List (AlertRule V))
      → length rules ≤ max_rules
      → length (upsert rule rules).0 ≤ max_rules
  unfolding upsert
  upsert-length rule rules h = ground (
    arith,
    length-append rules (record rule { seed = false } ∷ []),
    length-replace (record rule { seed = false }) rules,
  )

  -- A removal leaves the rules of all other ids, never removes a rule while `get` finds a seed under
  -- the id, and else leaves no rule of the id.
  pub remove-get :
      (id : String) (rules : List (AlertRule V)) (j : String)
      → ((r : AlertRule V) × (get id rules ≡ some r)
          × (r.seed ≡ true)
          × ((remove id rules).0 ≡ rules))
        ⊎ (get j (remove id rules).0 ≡ (if id === j then none else get j rules))
  unfolding remove
  remove-get id rules j = elim (Option-cases (get id rules)) [
    | inl absent ↦ inr (ground (arith, eq_iff id j))
    | inr (r, found) ↦ elim (Bool-cases r.seed) [
      | inl seed ↦ inl (r, found, seed, ground arith)
      | inr own ↦ inr (ground (arith, get-select id j rules))
    ]
  ]
