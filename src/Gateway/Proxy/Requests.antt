-- ===== src/Gateway/Proxy/Requests.antt =====
-- server/src/gateway/gateway.ts: which requests are let in, and which of them ask for the models.
use mathlib.Core.List.{append-nil}
use dgx_control_center.Prelude.{
  String, ◌≡◌, ◌≢◌, ◌↔◌, ◌⊎◌, inl, inr, refl, sym, ap, ◌∙◌, true, Option, none, some, [], ◌∷◌, ◌++◌,
  codes, strip_prefix, arith, Option-cases, eq_iff, String-cases,
}
use dgx_control_center.Gateway.Proxy.{
  Text, GatewayRequest, ends_with, or_none, bearer_token, verified, is_authorized, named,
}

-- The gateway asks for no keys, or the header is `Bearer` with a key that verifies.
abbrev pub Admits : Option (Text → Option String) → GatewayRequest → Type 0
Admits verify req =
    (verify ≡ none)
    ⊎ ((check : Text → Option String) × (key : Text) × (name : String) × (verify ≡ some check)
        × (req.authorization ≡ some (codes "Bearer " ++ key))
        × (key ≢ [])
        × (check key ≡ some name))

-- The path ends with `/models`.
abbrev pub AsksModels : Text → Type 0
AsksModels path = (front : Text) × (path ≡ front ++ codes "/models")

-- The body gives no model, or an empty one.
abbrev pub Unnamed : Option String → Type 0
Unnamed model = (model ≡ none) ⊎ (model ≡ some "")

strip_prefix_sound : (p s : Text) {rest : Text} → strip_prefix p s ≡ some rest → s ≡ p ++ rest
unfolding strip_prefix
strip_prefix_sound [] s h = cc
strip_prefix_sound (c ∷ cs) [] h = cc
strip_prefix_sound (c ∷ cs) (d ∷ ds) {rest} h =
    ground (arith, strip_prefix_sound cs ds {rest = rest} (ground arith))

strip_prefix-append : (p rest : Text) → strip_prefix p (p ++ rest) ≡ some rest
unfolding strip_prefix
strip_prefix-append [] rest = refl
strip_prefix-append (c ∷ cs) rest = ground (arith, strip_prefix-append cs rest)

ends_with_sound :
    (suffix s : Text) → ends_with suffix s ≡ true → (front : Text) × (s ≡ front ++ suffix)
unfolding ends_with
ends_with_sound [] [] h = ([], refl)
ends_with_sound (a ∷ as') [] h = cc
ends_with_sound suffix (c ∷ cs) h = elim (Option-cases (strip_prefix suffix (c ∷ cs))) [
  | inl other ↦
      let (front, e) = ends_with_sound suffix cs (ground arith) in (c ∷ front, ap (◌∷◌ c) e)
  | inr ([], whole) ↦ ([], strip_prefix_sound suffix (c ∷ cs) {rest = []} whole ∙ append-nil suffix)
  | inr (d ∷ ds, longer) ↦
      let (front, e) = ends_with_sound suffix cs (ground arith) in (c ∷ front, ap (◌∷◌ c) e)
]

ends_with-append : (front suffix : Text) → ends_with suffix (front ++ suffix) ≡ true
unfolding ends_with
ends_with-append [] [] = refl
ends_with-append [] (c ∷ cs) =
    let whole : strip_prefix (c ∷ cs) (c ∷ cs) ≡ some [] =
      ap (strip_prefix (c ∷ cs)) (sym (append-nil (c ∷ cs))) ∙ strip_prefix-append (c ∷ cs) [] in
    ground (arith, whole)
ends_with-append (c ∷ front) suffix =
    let ih = ends_with-append front suffix in
    elim (Option-cases (strip_prefix suffix (c ∷ (front ++ suffix)))) [
      | inl other ↦ ground (arith, other, ih)
      | inr ([], whole) ↦ ground (arith, whole)
      | inr (d ∷ ds, longer) ↦ ground (arith, longer, ih)
    ]

pub ends_with-AsksModels :
    (path : Text) → (ends_with (codes "/models") path ≡ true) ↔ AsksModels path
ends_with-AsksModels path = (
  λ h. ends_with_sound (codes "/models") path h,
  λ (front, e). ap (ends_with (codes "/models")) e ∙ ends_with-append front (codes "/models"),
)

pub named-Unnamed : (model : Option String) → named model ≡ none → Unnamed model
named-Unnamed none e = inl refl
named-Unnamed (some t) e = inr (ap some ((eq_iff t "").0 (ground arith)))

pub named_sound :
    (model : Option String) {alias : String}
    → named model ≡ some alias
    → (model ≡ some alias) × (alias ≢ "")
named_sound none e = cc
named_sound (some t) {alias} e = elim (String-cases t "") [
  | inl empty ↦ absurd (ground (arith, (eq_iff t "").1 empty))
  | inr (full, test) ↦
      let same : t ≡ alias = ground (arith, test) in (ap some same, λ empty. full (same ∙ empty))
]

-- What the token of a header is that has one.
bearer_token_sound :
    (authorization : Option Text) (key : Text)
    → bearer_token authorization ≡ key
    → key ≢ []
    → authorization ≡ some (codes "Bearer " ++ key)
unfolding strip_prefix
bearer_token_sound none key e full = absurd (full (sym e))
bearer_token_sound (some h) key e full = elim (Option-cases (strip_prefix (codes "Bearer ") h)) [
  | inl absent ↦ absurd (full (sym e ∙ ap (λ o. or_none o []) absent))
  | inr (rest, found) ↦ ap some (
      strip_prefix_sound (codes "Bearer ") h {rest = rest} found
      ∙ ap (λ r. codes "Bearer " ++ r) (sym (ap (λ o. or_none o []) found) ∙ e))
]

verified_sound :
    (check : Text → Option String) (key : Text) {name : String}
    → verified check key ≡ some name
    → (key ≢ []) × (check key ≡ some name)
verified_sound check [] e = cc
verified_sound check (c ∷ cs) e = ((λ empty. cc), e)

verified-check :
    (check : Text → Option String) (key : Text) → key ≢ [] → verified check key ≡ check key
verified-check check [] full = absurd (full refl)
verified-check check (c ∷ cs) full = refl

pub is_authorized-Admits :
    (verify : Option (Text → Option String)) (req : GatewayRequest)
    → (is_authorized verify req ≡ true) ↔ Admits verify req
is_authorized-Admits none req = (λ e. inl refl, λ a. refl)
is_authorized-Admits (some check) req =
    let key = bearer_token req.authorization in
    (
      λ e. elim (Option-cases (verified check key)) [
        | inl refused ↦ absurd (ground arith)
        | inr (name, passed) ↦
            let (full, valid) = verified_sound check key passed in
            inr (
              check,
              key,
              name,
              refl,
              bearer_token_sound req.authorization key refl full,
              full,
              valid,
            )
      ],
      λ a. elim a [
        | inl open_to_all ↦ absurd (cc open_to_all)
        | inr (check', key', name, same, given, full, valid) ↦
            let token : key ≡ key' =
              ap bearer_token given
              ∙ ap (λ o. or_none o []) (strip_prefix-append (codes "Bearer ") key') in
            let checks : check ≡ check' =
              ap (λ (o : Option (Text → Option String)). elim o [ none ↦ check | some f ↦ f ])
                same in
            let passed : verified check key ≡ some name =
              ap (verified check) token
              ∙ (verified-check check key' full ∙ (ap (λ f. f key') checks ∙ valid)) in
            ground (arith, passed)
      ],
    )
