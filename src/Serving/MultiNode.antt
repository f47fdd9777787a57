-- ===== src/Serving/MultiNode.antt =====
-- server/src/serving/multiNode.ts: the guard that refuses to start a recipe whose declared nodes are
-- not the cluster's. `workers_of` is the split of WORKER_IP at commas and blanks without the empty
-- parts; the texts of the reasons are left out.
pub mod Cluster
pub mod Laws
use dgx_control_center.Prelude.{
  String, ℕ, ◌+◌, ◌-◌, Bool, true, false, not, ◌&&◌, ◌||◌, Option, none, some, List, [], ◌∷◌, ◌++◌,
  find, select, any, length, ltb, leb, ◌==◌, ◌===◌, if◌then◌else◌, truthy, ℤ, pos,
}

pub record RecipeTopology : Type 0 where
  pub nnodes : ℕ
  pub worker_ip : Option String
  pub head_ip : Option String

pub record PeerNode : Type 0 where
  pub id : String
  pub lan_ip : Option String
  pub kind : String
  pub role : String

-- `head-role-required` is declared in the source and given by no branch.
pub data Code : Type 0 where
  single_node no_worker_declared head_role_required : Code
  head_ip_mismatch worker_unmatched node_count_delta : Code

-- The delta is `expected - given`, of two counts.
pub data MultiNodeCheck : Type 0 where
  ok : MultiNodeCheck
  refused :
      (code : Code) (declared_nodes : ℕ) (matched_workers : List String) (expected given : ℕ)
      → MultiNodeCheck

abbrev pub given : Option String → Bool
given none = false
given (some s) = truthy s

abbrev pub same_ip : String → Option String → Bool
same_ip ip none = false
same_ip ip (some s) = s === ip

abbrev pub is_spark : PeerNode → Bool
is_spark p = p.kind === "spark"

abbrev pub is_worker_at : String → PeerNode → Bool
is_worker_at ip p = p.role === "worker" && same_ip ip p.lan_ip

abbrev pub is_head_at : String → PeerNode → Bool
is_head_at ip p = p.role === "head" && same_ip ip p.lan_ip

abbrev pub declared : (String → List String) → Option String → List String
declared workers_of none = []
declared workers_of (some ip) = if truthy ip then workers_of ip else []

-- The loop over the declared workers: the ids matched and the addresses unmatched.
unfoldable pub match_workers : List PeerNode → List String → List String × List String
match_workers sparks [] = ([], [])
match_workers sparks (ip ∷ ips) =
    let (matched, unmatched) = match_workers sparks ips in
    elim (find (is_worker_at ip) sparks) [
      | none ↦ (matched, ip ∷ unmatched)
      | some hit ↦ (hit.id ∷ matched, unmatched)
    ]

-- recipe.headIp && !peers.some(…)
abbrev pub head_missing : Option String → List PeerNode → Bool
head_missing none peers = false
head_missing (some ip) peers = truthy ip && not (any (is_head_at ip) peers)

abbrev pub is_nil {ℓ} : {A : Type ℓ} → List A → Bool
is_nil [] = true
is_nil (x ∷ xs) = false

module _ (workers_of : String → List String) where
  unfoldable pub check_multi_node : RecipeTopology → List PeerNode → MultiNodeCheck
  unfolding match_workers
  check_multi_node recipe peers =
      let n = recipe.nnodes in
      let ips = declared workers_of recipe.worker_ip in
      let (matched, unmatched) = match_workers (select is_spark peers) ips in
      if leb n 1 && not (given recipe.worker_ip)
      then ok
      else (if ltb 1 n && not (given recipe.worker_ip)
          then refused no_worker_declared n [] (n - 1) 0
          else (if ltb 0 (length unmatched)
              then refused worker_unmatched n matched (length unmatched) 0
              else (if ltb 1 n && not (length matched == n - 1)
                  then refused node_count_delta n matched (n - 1) (length matched)
                  else (if head_missing recipe.head_ip peers
                      then refused head_ip_mismatch n matched 1 0
                      else (if leb n 1 && (ltb 0 (length ips) && length matched == 0)
                          then refused worker_unmatched n [] (length ips) 0
                          else ok)))))
