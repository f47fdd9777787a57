-- ===== src/Power/ClockStore.antt =====
-- server/src/power/clockStore.ts: the desired clock profile of each node. The file behind the store
-- is left out.
use dgx_control_center.Prelude.{
  String, ℕ, ◌≡◌, ◌⊎◌, inl, inr, Bool, true, false, Option, none, some, List, arith, ◌===◌,
  if◌then◌else◌, Option-cases, ===_refl, eq_iff,
}
use dgx_control_center.Dict.{Dict, get, put, remove, values, get-put, get-remove}
use dgx_control_center.Power.Profiles.{ClockProfile, profile_by_id}

pub record ClockDesireRecord : Type 0 where
  pub spark_id : String
  pub profile : String
  pub updated_at : ℕ
  pub updated_by : Option String

abbrev desire_or_full : String → Option ClockDesireRecord → ClockDesireRecord
desire_or_full id none = record {
  spark_id = id;
  profile = "full";
  updated_at = 0;
  updated_by = none;
}
desire_or_full id (some d) = d

unfoldable pub desired_for : String → Dict ClockDesireRecord → ClockDesireRecord
desired_for spark_id desires = desire_or_full spark_id (get spark_id desires)

-- ClockProfileStore.set
unfoldable pub set :
    ℕ
    → String
    → String
    → Option String
    → Dict ClockDesireRecord
    → Dict ClockDesireRecord × Option ClockDesireRecord
set now spark_id profile_id updated_by desires = elim (profile_by_id profile_id) [
  | none ↦ (desires, none)
  | some profile ↦
      let rec : ClockDesireRecord = record {
        spark_id = spark_id;
        profile = profile.id;
        updated_at = now;
        updated_by = updated_by;
      } in
      (put spark_id rec desires, some rec)
]

-- ClockProfileStore.list
abbrev pub list : Dict ClockDesireRecord → List ClockDesireRecord
list desires = values desires

-- ClockProfileStore.clear
unfoldable pub clear : String → Dict ClockDesireRecord → Dict ClockDesireRecord × Bool
clear spark_id desires = elim (get spark_id desires) [
  | none ↦ (desires, false)
  | some d ↦ (remove spark_id desires, true)
]

profile_by_id-id : (id : String) {p : ClockProfile} → profile_by_id id ≡ some p → p.id ≡ id
unfolding profile_by_id
profile_by_id-id id e = ground (arith, eq_iff "full" id, eq_iff "eco" id, eq_iff "quiet" id)

-- A text that names no profile changes nothing. A profile set by its identifier is the one desired
-- of its node, and `clear` brings the node back to "full"; neither changes what another node desires.
pub desired_for-set :
    (now : ℕ) (spark_id profile_id id : String) (updated_by : Option String)
    (desires : Dict ClockDesireRecord)
    → let after = (set now spark_id profile_id updated_by desires).0 in
      ((profile_by_id profile_id ≡ none) × (after ≡ desires))
      ⊎ (((desired_for id after).profile
            ≡ (if spark_id === id then profile_id else (desired_for id desires).profile))
          × ((desired_for id (clear spark_id after).0).profile
              ≡ (if spark_id === id then "full" else (desired_for id desires).profile)))
unfolding set clear desired_for
desired_for-set now spark_id profile_id id updated_by desires =
    elim (Option-cases (profile_by_id profile_id)) [
      | inl unknown ↦ inl (unknown, ground arith)
      | inr (p, named) ↦
          let rec : ClockDesireRecord = record {
            spark_id = spark_id;
            profile = p.id;
            updated_at = now;
            updated_by = updated_by;
          } in
          inr (
            ground (arith, profile_by_id-id profile_id named, get-put spark_id id rec desires),
            ground (
              arith,
              get-put spark_id id rec desires,
              get-put spark_id spark_id rec desires,
              ===_refl spark_id,
              get-remove spark_id id (put spark_id rec desires),
            ),
          )
    ]
