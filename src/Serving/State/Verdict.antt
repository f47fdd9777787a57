-- ===== src/Serving/State/Verdict.antt =====
-- server/src/serving/deployments.ts: what the identity check of `joinServeState` says, in terms of
-- the ids that the engine reports.
use dgx_control_center.Prelude.{
  String, ◌≡◌, ◌≢◌, ◌↔◌, ◌⊎◌, inl, inr, refl, Bool, true, false, ◌||◌, ◌∙◌, ap, sym, subst, Option,
  none, some, List, [], ◌∷◌, any, arith, ◌===◌, eq_iff, String-cases, Bool-cases, ℕ,
}
use dgx_control_center.Jobs.Record.{running}
use dgx_control_center.Serving.State.{
  Texts, FactorJob, FactorLlm, ServeProbe, ServeStateFactors, norm_model, seen_ids, id_match,
  is_mismatch, given, job_live, is_nil, or_empty, llm_available, health_is,
}
use dgx_control_center.Serving.State.Reports.{
  OneOf, There, Live, Answers, Reports, Named, seen_ids-Reports, some_same,
}

-- No name is given, or the engine reports no id.
abbrev pub Silent : Texts → ServeStateFactors → Type 0
Silent T f = ((name : String) → ¬ Named f name) ⊎ ((id : String) → ¬ Reports T f id)

-- An id that the engine reports is the given name, up to the path and the case.
abbrev pub Agrees : Texts → ServeStateFactors → Type 0
Agrees T f =
    (name : String) × (id : String) × Named f name
    × Reports T f id
    × (norm_model T id ≡ norm_model T name)

-- The verdict of the identity check, where it does not reject the engine.
abbrev pub Verdict : Texts → ServeStateFactors → Option Bool → Type 0
Verdict T f m = ((m ≡ none) × Silent T f) ⊎ ((m ≡ some true) × Agrees T f)

nil-OneOf : (ids : List String) → is_nil ids ≡ true → (id : String) → ¬ OneOf id ids
nil-OneOf [] e id h = h
nil-OneOf (a ∷ as') e id h = cc

OneOf-full : (ids : List String) → is_nil ids ≡ false → (id : String) × OneOf id ids
OneOf-full [] e = cc
OneOf-full (a ∷ as') e = (a, inl refl)

any-OneOf :
    (p : String → Bool) (ids : List String)
    → any p ids ≡ true
    → (id : String) × OneOf id ids × (p id ≡ true)
any-OneOf p [] h = cc
any-OneOf p (a ∷ as') h = elim (Bool-cases (p a)) [
  | inl here ↦ (a, inl refl, here)
  | inr there ↦ let (id, later, e) = any-OneOf p as' (ground arith) in (id, inr later, e)
]

OneOf-any :
    (p : String → Bool) (ids : List String) (id : String)
    → OneOf id ids
    → p id ≡ true
    → any p ids ≡ true
OneOf-any p [] id h e = absurd h
OneOf-any p (a ∷ as') id (inl here) e = ground (arith, subst (λ i. p i ≡ true) here e)
OneOf-any p (a ∷ as') id (inr later) e = ground (arith, OneOf-any p as' id later e)

given-Named : (f : ServeStateFactors) {name : String} → Named f name → given f.served_name ≡ true
given-Named f {name} (e, full) = elim (String-cases name "") [
  | inl empty ↦ absurd (full empty)
  | inr (other, test) ↦ ground (arith, e, test)
]

named_given :
    (served_name : Option String)
    → given served_name ≡ true
    → (served_name ≡ some (or_empty served_name)) × (or_empty served_name ≢ "")
named_given none e = cc
named_given (some t) e = (refl, λ empty. ground (arith, (eq_iff t "").1 empty))

Agrees-Silent : (T : Texts) (f : ServeStateFactors) → Agrees T f → ¬ Silent T f
Agrees-Silent T f (name, id, named, reported, same) (inl nameless) = nameless name named
Agrees-Silent T f (name, id, named, reported, same) (inr idless) = idless id reported

-- What the identity check gives.
id_match-cases :
    (T : Texts) (f : ServeStateFactors)
    → ((id_match T f ≡ none) × Silent T f)
      ⊎ ((id_match T f ≡ some true) × Agrees T f)
      ⊎ ((id_match T f ≡ some false) × (¬ Silent T f) × (¬ Agrees T f))
unfolding id_match
id_match-cases T f =
    let name = or_empty f.served_name in
    let ids = seen_ids T f in
    let same = λ (id : String). norm_model T id === norm_model T name in
    let reports = seen_ids-Reports T f in
    elim (Bool-cases (given f.served_name)) [
      | inr nameless ↦
          inl (ground arith, inl (λ n h. absurd (ground (arith, given-Named f {name = n} h))))
      | inl given_name ↦ elim (Bool-cases (is_nil ids)) [
        | inl idless ↦ inl (ground arith, inr (λ id h. nil-OneOf ids idless id ((reports id).1 h)))
        | inr full ↦
            let named = named_given f.served_name given_name in
            elim (Bool-cases (any same ids)) [
              | inl hit ↦
                  let (id, one, e) = any-OneOf same ids hit in
                  inr (
                    inl (
                      ground arith,
                      (
                        name,
                        id,
                        named,
                        (reports id).0 one,
                        (eq_iff (norm_model T id) (norm_model T name)).0 e,
                      ),
                    ))
              | inr miss ↦ inr (
                  inr (
                    ground arith,
                    λ s. elim s [
                      | inl nameless ↦ nameless name named
                      | inr idless ↦
                          let (id, one) = OneOf-full ids full in idless id ((reports id).0 one)
                    ],
                    λ (n, id, (e, other), reported, alike).
                        let names : n ≡ name = some_same (sym e ∙ named.0) in
                        let hit = OneOf-any same ids id ((reports id).1 reported) (
                          (eq_iff (norm_model T id) (norm_model T name)).1
                            (alike ∙ ap (norm_model T) names)) in
                        absurd (ground (arith, hit)),
                  ))
            ]
      ]
    ]

-- The verdicts that do not reject the engine are those of the check.
pub Verdict-id_match :
    (T : Texts) (f : ServeStateFactors) (m : Option Bool)
    → ((is_mismatch (id_match T f) ≡ false) × (m ≡ id_match T f)) ↔ Verdict T f m
Verdict-id_match T f m = elim (id_match-cases T f) [
  | inl (e, silent) ↦ (
    λ (pass, same). inl (same ∙ e, silent),
    λ v. elim v [
      | inl (nothing, s) ↦ (ground arith, nothing ∙ sym e)
      | inr (hit, agrees) ↦ absurd (Agrees-Silent T f agrees silent)
    ],
  )
  | inr (inl (e, agrees)) ↦ (
    λ (pass, same). inr (same ∙ e, agrees),
    λ v. elim v [
      | inl (nothing, silent) ↦ absurd (Agrees-Silent T f agrees silent)
      | inr (hit, a) ↦ (ground arith, hit ∙ sym e)
    ],
  )
  | inr (inr (e, loud, differs)) ↦ (
    λ (pass, same). absurd (ground arith),
    λ v. elim v [
      | inl (nothing, silent) ↦ absurd (loud silent)
      | inr (hit, agrees) ↦ absurd (differs agrees)
    ],
  )
]

There-llm :
    (llm : Option FactorLlm) → (llm_available llm ≡ true) ↔ There (λ l. l.available ≡ true) llm
There-llm none = (λ e. cc, λ h. absurd h)
There-llm (some l) = (λ e. e, λ e. e)

There-health :
    (health : Option ℕ) (p : ServeProbe)
    → p.health ≡ health
    → (health_is 200 (some p) ≡ true) ↔ There (λ h. h ≡ 200) health
There-health none p e = (λ t. absurd (ground arith), λ h. absurd h)
There-health (some h) p e = (λ t. ground arith, λ t. ground arith)

There-probe :
    (probe : Option ServeProbe)
    → (health_is 200 probe ≡ true) ↔ There (λ p. There (λ h. h ≡ 200) p.health) probe
There-probe none = (λ e. cc, λ h. absurd h)
There-probe (some p) = There-health p.health p refl

pub Answers-factors :
    (f : ServeStateFactors) → ((llm_available f.llm || health_is 200 f.probe) ≡ true) ↔ Answers f
Answers-factors f =
    let llm = There-llm f.llm in
    let probe = There-probe f.probe in
    (
      λ e. elim (Bool-cases (llm_available f.llm)) [
        | inl seen ↦ inl (llm.0 seen)
        | inr unseen ↦ inr (probe.0 (ground arith))
      ],
      λ a. elim a [ inl l ↦ ground (arith, llm.1 l) | inr p ↦ ground (arith, probe.1 p) ],
    )

Live-job : (job : Option FactorJob) → (job_live job ≡ true) ↔ There (λ j. j.state ≡ running) job
Live-job none = (λ e. cc, λ h. absurd h)
Live-job (some j) = (λ e. ground arith, λ e. ground arith)

pub job_live-Live : (f : ServeStateFactors) → (job_live f.job ≡ true) ↔ Live f
job_live-Live f = Live-job f.job
