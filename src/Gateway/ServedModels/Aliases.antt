-- ===== src/Gateway/ServedModels/Aliases.antt =====
-- server/src/gateway/servedModels.ts: aliases stay unique.
use mathlib.Core.Path.{fun_ext}
use dgx_control_center.Prelude.{
  String, ℕ, ◌≡◌, refl, sym, ap, ◌∙◌, subst, inl, inr, Option, none, some, arith, eq_iff, find,
  Option-cases, String-cases,
}
use dgx_control_center.Dict
use dgx_control_center.Dict.{
  Dict, values, get-put, get-put_self, get-put_ne, get-remove, get-remove_ne, get-remove_self,
  find-values,
}
use dgx_control_center.Gateway.ServedModels.{
  ServedModelConfig, UpsertInput, stored, takes_alias, has_alias, by_alias, choose_id, record_of,
  upsert, remove,
}

-- Records stand under their own ids, and no two have one alias.
pub record IsUnique (models : Dict ServedModelConfig) : Type 0 where
  pub own_id : (k : String) (m : ServedModelConfig) → Dict.get k models ≡ some m → m.id ≡ k
  pub one_alias :
      (j k : String) (m n : ServedModelConfig)
      → Dict.get j models ≡ some m
      → Dict.get k models ≡ some n
      → m.alias ≡ n.alias
      → j ≡ k

module _ (input : UpsertInput) (models : Dict ServedModelConfig) (h : IsUnique models)
    (free : find (takes_alias input) (values models) ≡ none) where
  -- Any record with the alias of the input stands under the id of the input.
  alias_owner :
      (k : String) (m : ServedModelConfig)
      → Dict.get k models ≡ some m
      → m.alias ≡ input.alias
      → input.id ≡ some k
  alias_owner k m e same =
      let missed = find-values (takes_alias input) k models free e in
      let own = h.own_id k m e in
      elim (Option-cases input.id) [
        | inl absent ↦ absurd (ground (arith, eq_iff m.alias input.alias))
        | inr (id, given) ↦ ground (arith, eq_iff m.alias input.alias, eq_iff m.id id)
      ]

  -- Storing a record of the input under its id.
  module _ (id : String) (rec : ServedModelConfig) (named : rec.alias ≡ input.alias)
      (own : rec.id ≡ id) (chosen : (k : String) → input.id ≡ some k → k ≡ id) where
    put-IsUnique : IsUnique (Dict.put id rec models)
    put-IsUnique = record {
      own_id = λ k m e. elim (String-cases id k) [
        | inl same ↦ ground (arith, get-put id k rec models, eq_iff id k)
        | inr (differ, _) ↦ h.own_id k m (sym (get-put_ne id k rec models differ) ∙ e)
      ];
      one_alias = λ j k m n ej ek same. elim (String-cases id j) [
        | inl first ↦ elim (String-cases id k) [
          | inl second ↦ sym first ∙ second
          | inr (differ, _) ↦
              let old = sym (get-put_ne id k rec models differ) ∙ ek in
              let new : m ≡ rec = ground (arith, get-put id j rec models, eq_iff id j) in
              let alike : n.alias ≡ input.alias = ground arith in
              sym first ∙ sym (chosen k (alias_owner k n old alike))
        ]
        | inr (differ, _) ↦
            let old = sym (get-put_ne id j rec models differ) ∙ ej in
            elim (String-cases id k) [
              | inl second ↦
                  let new : n ≡ rec = ground (arith, get-put id k rec models, eq_iff id k) in
                  let alike : m.alias ≡ input.alias = ground arith in
                  chosen j (alias_owner j m old alike) ∙ second
              | inr (differ', _) ↦
                  h.one_alias j k m n old (sym (get-put_ne id k rec models differ') ∙ ek) same
            ]
      ];
    }

choose_id-some :
    (given : Option String) (named : Option ServedModelConfig) (generated k : String)
    → given ≡ some k
    → k ≡ choose_id given named generated
choose_id-some none named generated k e = cc
choose_id-some (some id) named generated k e = cc

-- Aliases stay unique and records under their ids through every upsert, accepted or refused.
pub upsert-IsUnique :
    (now : ℕ) (generated : String) (input : UpsertInput) (models : Dict ServedModelConfig)
    → IsUnique models
    → IsUnique (upsert now generated input models).0
unfolding upsert
upsert-IsUnique now generated input models h =
    elim (Option-cases (find (takes_alias input) (values models))) [
      | inr (m, taken) ↦ subst IsUnique (ground arith) h
      | inl free ↦
          let id = choose_id input.id (by_alias input.alias models) generated in
          let rec = record_of input id (Dict.get id models) now in
          subst IsUnique (ground arith) (
            put-IsUnique input models h free id rec refl refl
              (choose_id-some input.id (by_alias input.alias models) generated))
    ]

-- So they do through every removal.
pub remove-IsUnique :
    (id : String) (models : Dict ServedModelConfig)
    → IsUnique models
    → IsUnique (remove id models).0
unfolding remove
remove-IsUnique id models h = elim (Option-cases (Dict.get id models)) [
  | inl absent ↦ subst IsUnique (ground arith) h
  | inr (m, found) ↦ subst IsUnique {x = Dict.remove id models} (ground arith) (removed id)
]
  where
    kept :
        (id k : String) (m : ServedModelConfig)
        → Dict.get k (Dict.remove id models) ≡ some m
        → Dict.get k models ≡ some m
    kept id k m e = ground (arith, get-remove id k models)

    removed : (id : String) → IsUnique (Dict.remove id models)
    removed id = record {
      own_id = λ k m e. h.own_id k m (kept id k m e);
      one_alias = λ j k m n ej ek same. h.one_alias j k m n (kept id j m ej) (kept id k n ek) same;
    }

-- An upsert that names no id is accepted only for an alias that no stored model has: an existing
-- model is never updated by its alias alone.
pub upsert-no_id :
    (now : ℕ) (generated : String) (input : UpsertInput) (models : Dict ServedModelConfig)
    {rec : ServedModelConfig}
    → input.id ≡ none
    → (upsert now generated input models).1 ≡ stored rec
    → (by_alias input.alias models ≡ none) × (rec.id ≡ generated)
unfolding upsert
upsert-no_id now generated input models absent done =
    elim (Option-cases (find (takes_alias input) (values models))) [
      | inr (m, taken) ↦ absurd (ground arith)
      | inl free ↦
          let unnamed : find (has_alias input.alias) (values models) ≡ none =
            ap (λ p. find p (values models))
              (fun_ext {f = has_alias input.alias} {g = takes_alias input} λ m. ground arith)
            ∙ free in
          (unnamed, ground arith)
    ]
