-- ===== src/Serving/Deployments/Laws.antt =====
-- server/src/serving/deployments.ts: a recipe's deployment is reused.
use dgx_control_center.Prelude.{
  String, ℕ, ◌≡◌, refl, arith, none, some, Bool, Option-cases, Bool-cases, inl, inr, ===_refl,
  ◌===◌, if◌then◌else◌, true, false, find, find_sound, [], ◌∷◌, eq_iff, All,
}
use dgx_control_center.Dict
use dgx_control_center.Dict.{Dict, values}
use dgx_control_center.Serving.Deployments.{
  DeploymentRecord, Seed, Patch, upsert_for_recipe, by_recipe, of_recipe, new_deployment, assign,
  or_new,
}

-- Every record stands under its own id.
abbrev pub OwnIds : Dict DeploymentRecord → Type 0
OwnIds deployments = All (λ e. e.1.id ≡ e.0) deployments

branches_lem :
    (b : Bool) (m n : Dict DeploymentRecord)
    → (b ≡ true → OwnIds m)
    → (b ≡ false → OwnIds n)
    → OwnIds (if b then m else n)
branches_lem true m n first second = first refl
branches_lem false m n first second = second refl

put-OwnIds :
    (d : DeploymentRecord) (m : Dict DeploymentRecord) → OwnIds m → OwnIds (Dict.put d.id d m)
unfolding Dict.put
put-OwnIds d [] h = (refl, tt)
put-OwnIds d ((j, w) ∷ m) (own, h) =
    branches_lem (j === d.id) ((j, d) ∷ m) ((j, w) ∷ Dict.put d.id d m)
      (λ same. (ground (arith, eq_iff j d.id), h)) (λ _. (own, put-OwnIds d m h))

find-put :
    (p : DeploymentRecord → Bool) (k : String) (d : DeploymentRecord) (m : Dict DeploymentRecord)
    → p d ≡ true
    → find p (values m) ≡ none
    → find p (values (Dict.put k d m)) ≡ some d
unfolding Dict.put
find-put p k d [] hit missed = ground arith
find-put p k d ((j, w) ∷ m) hit missed = elim (Bool-cases (p w)) [
  | inl found ↦ absurd (ground arith)
  | inr miss ↦ ground (arith, find-put p k d m hit (rw miss at missed))
]

find-put_found :
    (p : DeploymentRecord → Bool) (d : DeploymentRecord) (m : Dict DeploymentRecord)
    {old : DeploymentRecord}
    → OwnIds m
    → p d ≡ true
    → find p (values m) ≡ some old
    → find p (values (Dict.put old.id d m)) ≡ some d
unfolding Dict.put
find-put_found p d [] h hit found = cc
find-put_found p d ((j, w) ∷ m) {old} (own, h) hit found = elim (Bool-cases (p w)) [
  | inl here ↦ ground (arith, eq_iff j old.id)
  | inr miss ↦ ground (arith, find-put_found p d m h hit (rw miss at found))
]

-- Where records stand under their own ids, they still do after an upsert for a recipe; the record that
-- it returns is then the one found for the recipe; and where a deployment of the recipe was there,
-- the returned one has its id, its node and its time of creation.
pub upsert_for_recipe_lem :
    (now : ℕ) (generated recipe_id : String) (seed : Seed) (patch : Patch)
    (deployments : Dict DeploymentRecord)
    → OwnIds deployments
    → let (after, d) = upsert_for_recipe now generated recipe_id seed patch deployments in
      OwnIds after
      × (by_recipe recipe_id after ≡ some d)
      × ((old : DeploymentRecord)
          → by_recipe recipe_id deployments ≡ some old
          → (d.id ≡ old.id) × (d.spark_id ≡ old.spark_id) × (d.created_at ≡ old.created_at))
unfolding upsert_for_recipe assign by_recipe new_deployment
upsert_for_recipe_lem now generated recipe_id seed patch deployments h =
    let fresh = new_deployment now generated recipe_id seed in
    let d = or_new (by_recipe recipe_id deployments) fresh in
    let d' = assign now patch d in
    (
      put-OwnIds d' deployments h,
      elim (Option-cases (find (of_recipe recipe_id) (values deployments))) [
        | inl missed ↦ ground (
          arith,
          missed,
          find-put (of_recipe recipe_id) generated (assign now patch fresh) deployments
              (===_refl recipe_id) missed,
        )
        | inr (old, found) ↦ ground (
          arith,
          found,
          find-put_found (of_recipe recipe_id) (assign now patch old) deployments h
              (find_sound (of_recipe recipe_id) (values deployments) found) found,
        )
      ],
      λ old found. (ground arith, ground arith, ground arith),
    )
