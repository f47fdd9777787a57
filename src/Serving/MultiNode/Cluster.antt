-- ===== src/Serving/MultiNode/Cluster.antt =====
-- server/src/serving/multiNode.ts: the texts of a recipe and the nodes that its addresses name.
use dgx_control_center.Prelude.{
  String, ◌≡◌, ◌≢◌, ◌↔◌, ◌⊎◌, inl, inr, true, false, none, some, Option, List, [], ◌∷◌, arith, refl,
  ◌&&◌, any, String-cases, find, select, Bool-cases, ap, eq_iff,
}
use dgx_control_center.Serving.MultiNode.{
  PeerNode, given, is_spark, is_worker_at, same_ip, is_head_at, declared,
}

-- One of the elements at least has the property.
abbrev pub AnyOf : (PeerNode → Type 0) → List PeerNode → Type 0
AnyOf P [] = ⊥
AnyOf P (p ∷ ps) = P p ⊎ AnyOf P ps

-- A spark node of the cluster with the role of a worker has the address.
abbrev pub HasWorker : List PeerNode → String → Type 0
HasWorker peers ip =
    AnyOf (λ p. (p.kind ≡ "spark") × (p.role ≡ "worker") × (p.lan_ip ≡ some ip)) peers

-- A node of the cluster with the role of a head has the address.
abbrev pub HasHead : List PeerNode → String → Type 0
HasHead peers ip = AnyOf (λ p. (p.role ≡ "head") × (p.lan_ip ≡ some ip)) peers

-- A text is given when it is there and not empty.
abbrev pub Absent : Option String → Type 0
Absent text = (text ≡ none) ⊎ (text ≡ some "")

pub Absent-given : (text : Option String) → given text ≡ false → Absent text
Absent-given none e = inl refl
Absent-given (some t) e = inr (ap some ((eq_iff t "").0 (ground arith)))

pub some_same : {s t : String} → some s ≡ some t → s ≡ t
some_same e = cc

pub given-Absent : (text : Option String) → Absent text → given text ≡ false
given-Absent none e = refl
given-Absent (some t) (inl e) = cc
given-Absent (some t) (inr e) = ground (arith, (eq_iff t "").1 (some_same e))

pub given-text :
    (text : Option String) → given text ≡ true → (t : String) × (text ≡ some t) × (t ≢ "")
given-text none e = cc
given-text (some t) e = (t, refl, λ empty. ground (arith, (eq_iff t "").1 empty))

pub text-given : {text : Option String} {t : String} → text ≡ some t → t ≢ "" → given text ≡ true
text-given {text} {t} named full = elim (String-cases t "") [
  | inl empty ↦ absurd (full empty)
  | inr (other, test) ↦ ground (arith, named, test)
]

pub declared-text :
    (workers_of : String → List String) {text : Option String} {t : String}
    → text ≡ some t
    → t ≢ ""
    → declared workers_of text ≡ workers_of t
declared-text workers_of {text} {t} named full = elim (String-cases t "") [
  | inl empty ↦ absurd (full empty)
  | inr (other, test) ↦ ground (arith, named, test)
]

-- What the test of an address says.
same_ip_iff :
    (ip : String) (lan_ip : Option String) → (same_ip ip lan_ip ≡ true) ↔ (lan_ip ≡ some ip)
same_ip_iff ip none = (λ e. cc, λ e. cc)
same_ip_iff ip (some s) = (λ e. ap some ((eq_iff s ip).0 e), λ e. (eq_iff s ip).1 (some_same e))

worker_iff :
    (ip : String) (q : PeerNode)
    → ((is_spark q && is_worker_at ip q) ≡ true)
      ↔ ((q.kind ≡ "spark") × (q.role ≡ "worker") × (q.lan_ip ≡ some ip))
worker_iff ip q =
    let kind = eq_iff q.kind "spark" in
    let role = eq_iff q.role "worker" in
    let at = same_ip_iff ip q.lan_ip in
    (
      λ e. (kind.0 (ground arith), role.0 (ground arith), at.0 (ground arith)),
      λ (k, r, a). ground (arith, kind.1 k, role.1 r, at.1 a),
    )

head_iff :
    (ip : String) (q : PeerNode)
    → (is_head_at ip q ≡ true) ↔ ((q.role ≡ "head") × (q.lan_ip ≡ some ip))
head_iff ip q =
    let role = eq_iff q.role "head" in
    let at = same_ip_iff ip q.lan_ip in
    (λ e. (role.0 (ground arith), at.0 (ground arith)), λ (r, a). ground (arith, role.1 r, at.1 a))

pub worker-HasWorker :
    (ip : String) (peers : List PeerNode) {p : PeerNode}
    → find (is_worker_at ip) (select is_spark peers) ≡ some p
    → HasWorker peers ip
worker-HasWorker ip [] h = cc
worker-HasWorker ip (q ∷ peers) {p} h = elim (Bool-cases (is_spark q && is_worker_at ip q)) [
  | inl hit ↦ inl ((worker_iff ip q).0 hit)
  | inr miss ↦ inr (worker-HasWorker ip peers {p = p} (ground arith))
]

pub HasWorker-worker :
    (ip : String) (peers : List PeerNode)
    → HasWorker peers ip
    → (p : PeerNode) × (find (is_worker_at ip) (select is_spark peers) ≡ some p)
HasWorker-worker ip [] h = absurd h
HasWorker-worker ip (q ∷ peers) h = elim (Bool-cases (is_spark q && is_worker_at ip q)) [
  | inl hit ↦ (q, ground arith)
  | inr miss ↦ elim h [
    | inl here ↦ absurd (ground (arith, (worker_iff ip q).1 here))
    | inr later ↦ let (p, found) = HasWorker-worker ip peers later in (p, ground arith)
  ]
]

pub head-HasHead :
    (ip : String) (peers : List PeerNode) → any (is_head_at ip) peers ≡ true → HasHead peers ip
head-HasHead ip [] h = cc
head-HasHead ip (q ∷ peers) h = elim (Bool-cases (is_head_at ip q)) [
  | inl hit ↦ inl ((head_iff ip q).0 hit)
  | inr miss ↦ inr (head-HasHead ip peers (ground arith))
]

pub HasHead-head :
    (ip : String) (peers : List PeerNode) → HasHead peers ip → any (is_head_at ip) peers ≡ true
HasHead-head ip [] h = absurd h
HasHead-head ip (q ∷ peers) (inl here) = ground (arith, (head_iff ip q).1 here)
HasHead-head ip (q ∷ peers) (inr later) = ground (arith, HasHead-head ip peers later)
