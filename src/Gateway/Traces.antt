-- ===== src/Gateway/Traces.antt =====
-- server/src/stores/tracesStore.ts: the traces of requests. The table is a list of rows and each SQL
-- statement is written out; a table has no order, so that rows of one time come as they stand. The
-- generated id and `toLowerCase` are parameters; the JSON columns hold their values.
pub mod Laws
use dgx_control_center.Prelude.{
  String, ℕ, ◌+◌, ◌-◌, Bool, true, false, not, ◌&&◌, Option, none, some, List, [], ◌∷◌, ℤ, any,
  length, take, select, ltb, leb, truthy, ◌===◌, if◌then◌else◌,
}
use dgx_control_center.Prelude.Sorting.{sort}
use dgx_control_center.Gateway.Proxy.{Attempt}

-- A row; before it is inserted, its id counts for nothing.
pub record TraceRecord : Type 0 where
  pub id : String
  pub ts : ℕ
  pub client : Option String
  pub alias : String
  pub model : Option String
  pub node_id : Option String
  pub port : Option ℕ
  pub status : Option ℕ
  pub ttft_ms : Option ℤ
  pub duration_ms : ℤ
  pub stream : Bool
  pub prompt_tokens : Option ℕ
  pub completion_tokens : Option ℕ
  pub itl : List ℤ
  pub attempts : List Attempt
  pub error : Option String

pub record TraceListFilter : Type 0 where
  pub alias : Option String
  pub client : Option String
  pub since : Option ℕ
  pub limit : Option ℕ

pub record TraceLimits : Type 0 where
  pub redact_list : List String
  pub max_rows : ℕ
  pub max_age_ms : ℕ

-- The defaults of the constructor.
abbrev pub default_limits : TraceLimits
default_limits = record {
  redact_list = "authorization" ∷ "api-key" ∷ "x-api-key" ∷ "cookie" ∷ [];
  max_rows = 20000;
  max_age_ms = 604800000;
}

-- rec.client && this.redactList.has(rec.client.toLowerCase()) ? "[redacted]" : rec.client
abbrev pub redacted : (String → String) → List String → Option String → Option String
redacted lower redact_list none = none
redacted lower redact_list (some client) =
    if truthy client && any (λ k. k === lower client) redact_list
    then some "[redacted]"
    else some client

-- The record that is returned and, with its samples cut off, stored.
unfoldable pub insert :
    (String → String)
    → TraceLimits
    → String
    → TraceRecord
    → List TraceRecord
    → List TraceRecord × TraceRecord
insert lower limits id rec rows =
    let full : TraceRecord = record rec {
      id = id;
      client = redacted lower limits.redact_list rec.client;
    } in
    (record full { itl = take 256 full.itl } ∷ rows, full)

abbrev pub is_text : Option String → String → Bool
is_text none s = false
is_text (some t) s = t === s

-- A clause on a column, which an absent or empty filter leaves out.
abbrev pub alias_matches : Option String → TraceRecord → Bool
alias_matches none r = true
alias_matches (some a) r = if truthy a then r.alias === a else true

abbrev pub client_matches : Option String → TraceRecord → Bool
client_matches none r = true
client_matches (some c) r = if truthy c then is_text r.client c else true

abbrev pub since_matches : Option ℕ → TraceRecord → Bool
since_matches none r = true
since_matches (some t) r = leb t r.ts

abbrev pub trace_matches : TraceListFilter → TraceRecord → Bool
trace_matches f r =
    alias_matches f.alias r && (client_matches f.client r && since_matches f.since r)

-- Math.min(filter.limit ?? 200, 1000)
abbrev pub limit_of : Option ℕ → ℕ
limit_of none = 200
limit_of (some n) = if leb n 1000 then n else 1000

-- ORDER BY ts DESC
abbrev pub newer : TraceRecord → TraceRecord → Bool
newer y x = ltb x.ts y.ts

abbrev pub newest_first : List TraceRecord → List TraceRecord
newest_first rows = sort newer rows

unfoldable pub list_traces : TraceListFilter → List TraceRecord → List TraceRecord
list_traces f rows = take (limit_of f.limit) (newest_first (select (trace_matches f) rows))

-- ts >= now - maxAgeMs, with the subtraction moved across
abbrev pub is_young : ℕ → ℕ → TraceRecord → Bool
is_young now max_age_ms r = leb now (r.ts + max_age_ms)

-- The rows that are left and the number of those removed.
unfoldable pub prune : TraceLimits → ℕ → List TraceRecord → List TraceRecord × ℕ
prune limits now rows =
    let young = select (is_young now limits.max_age_ms) rows in
    let kept = take limits.max_rows (newest_first young) in
    (kept, length rows - length young + (length young - length kept))
