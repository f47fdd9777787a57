-- ===== src/Gateway/Clients/Laws.antt =====
-- server/src/gateway/clients.ts: which keys verify.
use dgx_control_center.Prelude.{
  String, ℕ, ◌≡◌, ◌≢◌, inl, inr, refl, sym, ap, ◌∙◌, true, Option, none, some, List, [], ◌∷◌, arith,
  eq_iff, ◌===◌, All, Bool-cases, String-cases, Option-cases,
}
use dgx_control_center.Dict.{Dict, get, put, get-put_self, get-put_ne}
use dgx_control_center.Dict.Keys.{IsDistinct, put-IsDistinct, get-All, put-All, remove-All}
use dgx_control_center.Gateway.Clients.{
  Text, ClientRecord, create, key_of, verify, verify_hash, revoke, remove_client, is_revoked,
}

some_inj : {a b : ClientRecord} → some a ≡ some b → a ≡ b
some_inj e = cc

-- No client with the hash has a key that is in force.
abbrev pub IsRefused : String → Dict ClientRecord → Type 0
IsRefused hash clients = All (λ e. e.1.key_hash ≡ hash → is_revoked e.1 ≡ true) clients

-- The operations of the store; `made` carries its arguments.
pub data Operation : Type 0 where
  made : (now : ℕ) (id : String) (secret name : Text) → Option (List String) → Operation
  used : (now : ℕ) → Text → Operation
  withdrawn : (now : ℕ) → String → Operation
  dropped : String → Operation

module _ (hash_key : Text → String) where
  abbrev pub apply : Operation → Dict ClientRecord → Dict ClientRecord
  apply (made now id secret name scopes) m = (create hash_key now id secret name scopes m).0
  apply (used now key) m = (verify hash_key now key m).0
  apply (withdrawn now id) m = (revoke now id m).0
  apply (dropped id) m = (remove_client id m).0

  abbrev pub run : List Operation → Dict ClientRecord → Dict ClientRecord
  run [] m = m
  run (o ∷ os) m = run os (apply o m)

  -- The keys that are generated hash to something else.
  abbrev pub Avoids : String → Operation → Type 0
  Avoids hash (made now id secret name scopes) = hash_key (key_of secret) ≢ hash
  Avoids hash _ = Unit

  verify-refused :
      (now : ℕ) (hash : String) (m : Dict ClientRecord)
      → IsRefused hash m
      → (verify_hash hash_key now hash m).1 ≡ none
  unfolding verify_hash
  verify-refused now hash [] hs = refl
  verify-refused now hash ((k, c) ∷ m) (h, hs) =
      ground (arith, verify-refused now hash m hs, h, eq_iff c.key_hash hash)

  verify-IsRefused :
      (now : ℕ) (other hash : String) (m : Dict ClientRecord)
      → IsRefused hash m
      → IsRefused hash (verify_hash hash_key now other m).0
  unfolding verify_hash
  verify-IsRefused now other hash [] hs = tt
  verify-IsRefused now other hash ((k, c) ∷ m) (h, hs) = elim (Bool-cases (c.key_hash === other)) [
    | inr e ↦ rw (verify_hash, e) (h, verify-IsRefused now other hash m hs)
    | inl e ↦ elim (Bool-cases (is_revoked c)) [
      | inl r ↦ rw (verify_hash, e, r) (λ x. r, hs)
      | inr r ↦ rw (verify_hash, e, r) (λ x. ground (arith, h x), hs)
    ]
  ]

  revoke_keeps :
      (now : ℕ) (id hash : String) (m : Dict ClientRecord)
      → IsRefused hash m
      → IsRefused hash (revoke now id m).0
  unfolding revoke
  revoke_keeps now id hash m hs =
      let P = λ (c : ClientRecord). c.key_hash ≡ hash → is_revoked c ≡ true in
      elim (Option-cases (get id m)) [
        | inl e ↦ rw (revoke, e) hs
        | inr (c, e) ↦ elim (Bool-cases (is_revoked c)) [
          | inl r ↦ rw (revoke, e, r) hs
          | inr r ↦
              rw (revoke, e, r) (put-All P id (record c { revoked_at = some now }) m (λ x. refl) hs)
        ]
      ]

  remove_keeps :
      (id hash : String) (m : Dict ClientRecord)
      → IsRefused hash m
      → IsRefused hash (remove_client id m).0
  unfolding remove_client
  remove_keeps id hash m hs =
      let P = λ (c : ClientRecord). c.key_hash ≡ hash → is_revoked c ≡ true in
      elim (Option-cases (get id m)) [
        | inl e ↦ rw (remove_client, e) hs
        | inr (c, e) ↦ rw (remove_client, e) (remove-All P id m hs)
      ]

  apply-IsRefused :
      (o : Operation) (hash : String) (m : Dict ClientRecord)
      → Avoids hash o
      → IsRefused hash m
      → IsRefused hash (apply o m)
  unfolding create
  apply-IsRefused (made now id secret name scopes) hash m other hs =
      put-All (λ c. c.key_hash ≡ hash → is_revoked c ≡ true) id
        (create hash_key now id secret name scopes m).1.0 m (λ e. absurd (other e)) hs
  apply-IsRefused (used now key) hash m u hs = verify-IsRefused now (hash_key key) hash m hs
  apply-IsRefused (withdrawn now id) hash m u hs = revoke_keeps now id hash m hs
  apply-IsRefused (dropped id) hash m u hs = remove_keeps id hash m hs

  run-IsRefused :
      (os : List Operation) (hash : String) (m : Dict ClientRecord)
      → All (Avoids hash) os
      → IsRefused hash m
      → IsRefused hash (run os m)
  run-IsRefused [] hash m us hs = hs
  run-IsRefused (o ∷ os) hash m (u, us) hs =
      run-IsRefused os hash (apply o m) us (apply-IsRefused o hash m u hs)

  put_revoked :
      (now : ℕ) (id : String) (m : Dict ClientRecord) (c : ClientRecord)
      → ((j : String) (d : ClientRecord) → get j m ≡ some d → d.key_hash ≡ c.key_hash → id ≡ j)
      → (j : String) (d : ClientRecord)
      → get j (put id (record c { revoked_at = some now }) m) ≡ some d
      → d.key_hash ≡ c.key_hash
      → is_revoked d ≡ true
  put_revoked now id m c only j d f x =
      let gone : ClientRecord = record c { revoked_at = some now } in
      elim (String-cases id j) [
        | inl same ↦
            ap is_revoked (
              some_inj
                (sym f ∙ ap (λ k. get k (put id gone m)) (sym same) ∙ get-put_self id gone m))
        | inr (differ, other) ↦
            absurd (differ (only j d (sym (get-put_ne id j gone m differ) ∙ f) x))
      ]

  revoke-IsRefused :
      (now : ℕ) (id : String) (m : Dict ClientRecord) (c : ClientRecord)
      → IsDistinct m
      → get id m ≡ some c
      → ((j : String) (d : ClientRecord) → get j m ≡ some d → d.key_hash ≡ c.key_hash → id ≡ j)
      → IsRefused c.key_hash (revoke now id m).0
  unfolding revoke
  revoke-IsRefused now id m c distinct e only =
      let P = λ (d : ClientRecord). d.key_hash ≡ c.key_hash → is_revoked d ≡ true in
      elim (Bool-cases (is_revoked c)) [
        | inl r ↦
            rw (revoke, e, r)
              (get-All P m distinct (λ j d f x.
                ap is_revoked (some_inj (sym f ∙ ap (λ k. get k m) (sym (only j d f x)) ∙ e)) ∙ r))
        | inr r ↦
            rw (revoke, e, r)
              (get-All P (put id (record c { revoked_at = some now }) m)
                (put-IsDistinct id (record c { revoked_at = some now }) m distinct)
                (λ j d f x. put_revoked now id m c only j d f x))
      ]

  -- In a store with distinct ids, once the client of a key is revoked, and no other client has
  -- the hash of its key, the key never verifies again, whatever is done with the store, as long
  -- as no key is made with the same hash.
  pub revoke-run :
      (now later : ℕ) (id : String) (key : Text) (os : List Operation) (m : Dict ClientRecord)
      (c : ClientRecord)
      → IsDistinct m
      → get id m ≡ some c
      → c.key_hash ≡ hash_key key
      → ((j : String) (d : ClientRecord) → get j m ≡ some d → d.key_hash ≡ c.key_hash → id ≡ j)
      → All (Avoids c.key_hash) os
      → (verify hash_key later key (run os (revoke now id m).0)).1 ≡ none
  revoke-run now later id key os m c distinct e same only us =
      ap (λ h. (verify_hash hash_key later h (run os (revoke now id m).0)).1) (sym same)
      ∙ verify-refused later c.key_hash (run os (revoke now id m).0) (
          run-IsRefused os c.key_hash (revoke now id m).0 us
            (revoke-IsRefused now id m c distinct e only))
