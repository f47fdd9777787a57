-- ===== src/Serving/State/Reports.antt =====
-- server/src/serving/deployments.ts: whether the engine of a deployment answers, and which ids it
-- reports.
use dgx_control_center.Prelude.{
  String, ◌≡◌, ◌≢◌, ◌↔◌, ◌⊎◌, inl, inr, refl, true, ◌++◌, ◌∙◌, ap, sym, subst, Option, none, some,
  List, [], ◌∷◌, arith, eq_iff, String-cases, truthy, if◌then◌else◌,
}
use dgx_control_center.Jobs.Record.{running}
use dgx_control_center.Serving.State.{
  Texts, FactorLlm, ServeProbe, ServeStateFactors, seen_ids, parse_model_ids, models_raw_of,
  texts_of, model_id_of, or_nil,
}

-- The text is one of the list.
abbrev pub OneOf : String → List String → Type 0
OneOf s [] = ⊥
OneOf s (t ∷ ts) = (s ≡ t) ⊎ OneOf s ts

-- A record that is there, with a property.
abbrev pub There : {A : Type 0} → (A → Type 0) → Option A → Type 0
There P none = ⊥
There P (some a) = P a

-- The last job is running.
abbrev pub Live : ServeStateFactors → Type 0
Live f = There (λ j. j.state ≡ running) f.job

-- The interface answers: the watcher of the model saw it, or the probe's health request gave 200.
abbrev pub Answers : ServeStateFactors → Type 0
Answers f =
    There (λ l. l.available ≡ true) f.llm ⊎ There (λ p. There (λ h. h ≡ 200) p.health) f.probe

-- The engine reports the id: to the watcher, or in the list of models of the probe.
abbrev pub Reports : Texts → ServeStateFactors → String → Type 0
Reports T f id =
    There (λ l. (l.model_id ≡ some id) × (id ≢ "")) f.llm
    ⊎ There (λ p. There (λ raw. (raw ≢ "") × OneOf id (T.match_ids raw)) p.models_raw) f.probe

-- The name under which the deployment is to be served.
abbrev pub Named : ServeStateFactors → String → Type 0
Named f name = (f.served_name ≡ some name) × (name ≢ "")

OneOf-append : (s : String) (ss ts : List String) → OneOf s (ss ++ ts) ↔ (OneOf s ss ⊎ OneOf s ts)
OneOf-append s [] ts = (λ h. inr h, λ h. elim h [ inl e ↦ absurd e | inr e ↦ e ])
OneOf-append s (t ∷ ss) ts =
    let ih = OneOf-append s ss ts in
    (
      λ h. elim h [
        | inl here ↦ inl (inl here)
        | inr later ↦ elim (ih.0 later) [ inl a ↦ inl (inr a) | inr b ↦ inr b ]
      ],
      λ h. elim h [
        | inl first ↦ elim first [ inl here ↦ inl here | inr a ↦ inr (ih.1 (inl a)) ]
        | inr b ↦ inr (ih.1 (inr b))
      ],
    )

pub some_same : {s t : String} → some s ≡ some t → s ≡ t
some_same e = cc

texts_of-OneOf :
    (id : String) (model_id : Option String)
    → OneOf id (texts_of model_id) ↔ ((model_id ≡ some id) × (id ≢ ""))
texts_of-OneOf id none = (λ h. absurd h, λ (e, full). cc)
texts_of-OneOf id (some t) = elim (String-cases t "") [
  | inl empty ↦
      let gone : texts_of (some t) ≡ [] = ground (arith, (eq_iff t "").1 empty) in
      (
        λ h. absurd (subst (OneOf id) gone h),
        λ (e, full). absurd (full (sym (some_same e) ∙ empty)),
      )
  | inr (full, test) ↦
      let whole : texts_of (some t) ≡ t ∷ [] = ground (arith, test) in
      (
        λ h. elim (subst (OneOf id) whole h) [
          | inl e ↦ (ap some (sym e), λ empty. full (sym e ∙ empty))
          | inr e ↦ absurd e
        ],
        λ (e, other). subst (OneOf id) (sym whole) (inl (sym (some_same e))),
      )
]

llm-OneOf :
    (id : String) (llm : Option FactorLlm)
    → OneOf id (texts_of (model_id_of llm)) ↔ There (λ l. (l.model_id ≡ some id) × (id ≢ "")) llm
llm-OneOf id none = (λ h. h, λ h. h)
llm-OneOf id (some l) = texts_of-OneOf id l.model_id

or_nil-list : (ids : List String) → or_nil (elim ids [ [] ↦ none | a ∷ as' ↦ some (a ∷ as') ]) ≡ ids
or_nil-list [] = refl
or_nil-list (a ∷ as') = refl

raw-OneOf :
    (T : Texts) (id : String) (raw : Option String)
    → OneOf id (or_nil (parse_model_ids T raw))
      ↔ There (λ t. (t ≢ "") × OneOf id (T.match_ids t)) raw
raw-OneOf T id none = (λ h. h, λ h. h)
raw-OneOf T id (some t) = elim (String-cases t "") [
  | inl empty ↦
      let gone : or_nil (parse_model_ids T (some t)) ≡ [] = ground (arith, (eq_iff t "").1 empty) in
      (λ h. absurd (subst (OneOf id) gone h), λ (full, h). absurd (full empty))
  | inr (full, test) ↦
      let filled : truthy t ≡ true = ground (arith, test) in
      let read : parse_model_ids T (some t)
          ≡ elim (T.match_ids t) [ [] ↦ none | a ∷ as' ↦ some (a ∷ as') ] =
        ap (λ b. if b then elim (T.match_ids t) [ [] ↦ none | a ∷ as' ↦ some (a ∷ as') ] else none)
          filled in
      let whole = ap or_nil read ∙ or_nil-list (T.match_ids t) in
      (λ h. (full, subst (OneOf id) whole h), λ (f, h). subst (OneOf id) (sym whole) h)
]

probe-OneOf :
    (T : Texts) (id : String) (probe : Option ServeProbe)
    → OneOf id (or_nil (parse_model_ids T (models_raw_of probe)))
      ↔ There (λ p. There (λ raw. (raw ≢ "") × OneOf id (T.match_ids raw)) p.models_raw) probe
probe-OneOf T id none = (λ h. h, λ h. h)
probe-OneOf T id (some p) = raw-OneOf T id p.models_raw

-- The ids that the check looks at are those that the engine reports.
pub seen_ids-Reports :
    (T : Texts) (f : ServeStateFactors) (id : String) → OneOf id (seen_ids T f) ↔ Reports T f id
unfolding seen_ids
seen_ids-Reports T f id =
    let both =
      OneOf-append id (texts_of (model_id_of f.llm))
        (or_nil (parse_model_ids T (models_raw_of f.probe))) in
    let left = llm-OneOf id f.llm in
    let right = probe-OneOf T id f.probe in
    (
      λ h. elim (both.0 h) [ inl a ↦ inl (left.0 a) | inr b ↦ inr (right.0 b) ],
      λ h. both.1 (elim h [ inl a ↦ inl (left.1 a) | inr b ↦ inr (right.1 b) ]),
    )
