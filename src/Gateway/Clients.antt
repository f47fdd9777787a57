-- ===== src/Gateway/Clients.antt =====
-- server/src/gateway/clients.ts: the clients of the gateway and their keys. The hash, the random secret
-- and the id are parameters; the file behind the store is left out.
pub mod Laws
use dgx_control_center.Prelude.{
  String, ℕ, Bool, true, false, ◌||◌, Option, none, some, List, [], ◌∷◌, ◌++◌, any, codes, take,
  trim, ◌===◌, if◌then◌else◌,
}
use dgx_control_center.Dict.{Dict, get, put, remove, values}

abbrev pub Text : Type 0
Text = List ℕ

pub record ClientRecord : Type 0 where
  pub id : String
  pub name : Text
  pub key_hash : String
  pub key_prefix : Text
  pub scopes : List String
  pub created_at : ℕ
  pub revoked_at : Option ℕ
  pub last_seen_at : Option ℕ

abbrev pub key_of : Text → Text
key_of secret = codes "cc-" ++ secret

abbrev pub key_prefix_of : Text → Text
key_prefix_of secret = codes "cc-" ++ (take 4 secret ++ codes "…")

-- input.scopes && input.scopes.length > 0 ? input.scopes : ["*"]
abbrev pub scopes_or_all : Option (List String) → List String
scopes_or_all (some (s ∷ ss)) = s ∷ ss
scopes_or_all _ = "*" ∷ []

abbrev pub list : Dict ClientRecord → List ClientRecord
list clients = values clients

abbrev pub is_revoked : ClientRecord → Bool
is_revoked c = elim c.revoked_at [ none ↦ false | some t ↦ true ]

module _ (hash_key : Text → String) where
  unfoldable pub create :
      ℕ
      → String
      → Text
      → Text
      → Option (List String)
      → Dict ClientRecord
      → Dict ClientRecord × (ClientRecord × Text)
  create now id secret name scopes clients =
      let rec : ClientRecord = record {
        id = id;
        name = take 80 (trim name);
        key_hash = hash_key (key_of secret);
        key_prefix = key_prefix_of secret;
        scopes = scopes_or_all scopes;
        created_at = now;
        revoked_at = none;
        last_seen_at = none;
      } in
      (put id rec clients, (rec, key_of secret))

  -- The loop of `verify` over the entries.
  unfoldable pub verify_hash :
      ℕ → String → Dict ClientRecord → Dict ClientRecord × Option ClientRecord
  verify_hash now hash [] = ([], none)
  verify_hash now hash ((k, c) ∷ m) =
      let (rest, found) = verify_hash now hash m in
      let seen : ClientRecord = record c { last_seen_at = some now } in
      if c.key_hash === hash
      then (if is_revoked c then ((k, c) ∷ m, none) else ((k, seen) ∷ m, some seen))
      else ((k, c) ∷ rest, found)

  abbrev pub verify : ℕ → Text → Dict ClientRecord → Dict ClientRecord × Option ClientRecord
  verify now key clients = verify_hash now (hash_key key) clients

-- client.scopes.includes("*") || client.scopes.includes(alias)
unfoldable pub can_serve : ClientRecord → String → Bool
can_serve client alias = any (λ s. s === "*") client.scopes || any (λ s. s === alias) client.scopes

unfoldable pub revoke : ℕ → String → Dict ClientRecord → Dict ClientRecord × Bool
revoke now id clients = elim (get id clients) [
  | none ↦ (clients, false)
  | some c ↦
      if is_revoked c
      then (clients, false)
      else (put id (record c { revoked_at = some now }) clients, true)
]

unfoldable pub remove_client : String → Dict ClientRecord → Dict ClientRecord × Bool
remove_client id clients = elim (get id clients) [
  | none ↦ (clients, false)
  | some c ↦ (remove id clients, true)
]
