-- ===== src/Serving/MultiNode/Laws.antt =====
-- server/src/serving/multiNode.ts: what the guard lets through.
use dgx_control_center.Prelude.{
  String, ◌-◌, ◌≤◌, ◌<◌, ◌≡◌, ◌≢◌, ◌↔◌, ◌⊎◌, inl, inr, true, false, none, some, Option, List, [],
  ◌∷◌, arith, refl, sym, subst, String-cases, All, length, find, select, Option-cases, Bool-cases,
  ap, ◌∙◌, eq_iff,
}
use dgx_control_center.Serving.MultiNode.{
  RecipeTopology, PeerNode, ok, given, is_spark, is_worker_at, declared, match_workers,
  head_missing, check_multi_node,
}
use dgx_control_center.Serving.MultiNode.Cluster.{
  HasWorker, HasHead, Absent, Absent-given, some_same, given-Absent, given-text, text-given,
  declared-text, worker-HasWorker, HasWorker-worker, head-HasHead, HasHead-head,
}

match_workers-length :
    (sparks : List PeerNode) (ips : List String)
    → length (match_workers sparks ips).1 ≡ 0
    → length (match_workers sparks ips).0 ≡ length ips
unfolding match_workers
match_workers-length sparks [] e = refl
match_workers-length sparks (ip ∷ ips) e = ground (arith, match_workers-length sparks ips)

match_workers-HasWorker :
    (peers : List PeerNode) (ips : List String)
    → length (match_workers (select is_spark peers) ips).1 ≡ 0
    → All (HasWorker peers) ips
unfolding match_workers
match_workers-HasWorker peers [] e = tt
match_workers-HasWorker peers (ip ∷ ips) e =
    elim (Option-cases (find (is_worker_at ip) (select is_spark peers))) [
      | inl missed ↦ absurd (ground arith)
      | inr (p, hit) ↦
          (worker-HasWorker ip peers hit, match_workers-HasWorker peers ips (ground arith))
    ]

HasWorker-match_workers :
    (peers : List PeerNode) (ips : List String)
    → All (HasWorker peers) ips
    → length (match_workers (select is_spark peers) ips).1 ≡ 0
unfolding match_workers
HasWorker-match_workers peers [] h = refl
HasWorker-match_workers peers (ip ∷ ips) (here, h) =
    let (p, hit) = HasWorker-worker ip peers here in
    ground (arith, hit, HasWorker-match_workers peers ips h)

-- The head that is named, if any, is not missing.
head_missing_iff :
    (head_ip : Option String) (peers : List PeerNode)
    → (head_missing head_ip peers ≡ false)
      ↔ ((ip : String) → head_ip ≡ some ip → ip ≢ "" → HasHead peers ip)
head_missing_iff none peers = (λ e ip named full. cc, λ h. refl)
head_missing_iff (some t) peers = elim (String-cases t "") [
  | inl empty ↦ (
    λ e ip named full. absurd (full (some_same (sym named) ∙ empty)),
    λ h. ground (arith, (eq_iff t "").1 empty),
  )
  | inr (full, test) ↦ (
    λ e ip named other.
        subst (HasHead peers) (some_same named) (head-HasHead t peers (ground arith)),
    λ h. ground (arith, test, HasHead-head t peers (h t refl full)),
  )
]

-- The tests of the guard, all passed.
check_multi_node-tests :
    (workers_of : String → List String) (recipe : RecipeTopology) (peers : List PeerNode)
    → let ips = declared workers_of recipe.worker_ip in
      (check_multi_node workers_of recipe peers ≡ ok) ↔ (
        ((given recipe.worker_ip ≡ false) × (recipe.nnodes ≤ 1))
        ⊎ ((given recipe.worker_ip ≡ true)
            × All (HasWorker peers) ips
            × (1 < recipe.nnodes → length ips ≡ recipe.nnodes - 1)
            × (head_missing recipe.head_ip peers ≡ false)))
unfolding check_multi_node
check_multi_node-tests workers_of recipe peers =
    let sparks = select is_spark peers in
    let ips = declared workers_of recipe.worker_ip in
    let count = match_workers-length sparks ips in
    (
      λ e. elim (Bool-cases (given recipe.worker_ip)) [
        | inr alone ↦ inl (alone, ground arith)
        | inl many ↦
            let none_missed : length (match_workers sparks ips).1 ≡ 0 = ground arith in
            inr (
              many,
              match_workers-HasWorker peers ips none_missed,
              λ several. ground (arith, count none_missed),
              ground arith,
            )
      ],
      λ h. elim h [
        | inl (alone, few) ↦ ground arith
        | inr (many, matched, counted, headed) ↦
            let none_missed = HasWorker-match_workers peers ips matched in
            ground (arith, none_missed, count none_missed)
      ],
    )

-- The guard lets a recipe through exactly when it gives no text of worker addresses and has at most
-- one node, or when it gives such a text, each address in it is that of a spark node with the role
-- of a worker, the addresses are as many as the count of nodes less one where that count is above
-- one, and the head address that it gives, if any, is that of a node with the role of a head. An
-- address that the text repeats is counted each time.
pub check_multi_node_iff :
    (workers_of : String → List String) (recipe : RecipeTopology) (peers : List PeerNode)
    → (check_multi_node workers_of recipe peers ≡ ok) ↔ (
        (Absent recipe.worker_ip × (recipe.nnodes ≤ 1))
        ⊎ ((text : String) × (recipe.worker_ip ≡ some text)
            × (text ≢ "")
            × All (HasWorker peers) (workers_of text)
            × (1 < recipe.nnodes → length (workers_of text) ≡ recipe.nnodes - 1)
            × ((ip : String) → recipe.head_ip ≡ some ip → ip ≢ "" → HasHead peers ip)))
check_multi_node_iff workers_of recipe peers =
    let tests = check_multi_node-tests workers_of recipe peers in
    let head = head_missing_iff recipe.head_ip peers in
    let ips = declared workers_of recipe.worker_ip in
    (
      λ e. elim (tests.0 e) [
        | inl (alone, few) ↦ inl (Absent-given recipe.worker_ip alone, few)
        | inr (many, matched, counted, headed) ↦
            let (text, named, full) = given-text recipe.worker_ip many in
            let same = declared-text workers_of named full in
            inr (
              text,
              named,
              full,
              subst (All (HasWorker peers)) same matched,
              λ several. sym (ap length same) ∙ counted several,
              head.0 headed,
            )
      ],
      λ h. tests.1 (elim h [
        | inl (alone, few) ↦ inl (given-Absent recipe.worker_ip alone, few)
        | inr (text, named, full, matched, counted, headed) ↦
            let same = declared-text workers_of named full in
            inr (
              text-given named full,
              subst (All (HasWorker peers)) (sym same) matched,
              λ several. ap length same ∙ counted several,
              head.1 headed,
            )
      ]),
    )
