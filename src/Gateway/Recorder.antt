-- ===== src/Gateway/Recorder.antt =====
-- server/src/gateway/recorder.ts: what the recorder derives from the chunks of a response. The parsing
-- of JSON is a parameter, as for the accumulator of the chat; the fields of the trace that are copied
-- from the request are left out.
pub mod Laws
use dgx_control_center.Prelude.{
  ℕ, suc, ◌+◌, ◌-◌, Bool, true, false, ◌&&◌, Option, none, some, List, [], ◌∷◌, ◌++◌, ℤ, pos,
  negsuc, length, trim, split, ltb, leb, codes, strip_prefix, if◌then◌else◌,
}
use dgx_control_center.Chat.Sse.{Text, RawUsage, ChatChunk, Choice, payload_of}

-- a - b
abbrev pub minus : ℕ → ℕ → ℤ
minus a b = if leb b a then pos (a - b) else negsuc (b - a - 1)

pub record RequestRecorder : Type 0 where
  pub max_itl : ℕ
  pub itl : List ℤ
  pub started_at : ℕ
  pub first_chunk_at : Option ℕ
  pub last_chunk_at : Option ℕ
  pub text : Text
  pub usage : Option RawUsage
  pub delta_count : ℕ

-- The constructor, at the time of the request.
abbrev pub start : ℕ → ℕ → RequestRecorder
start max_itl now = record {
  max_itl = max_itl;
  itl = [];
  started_at = now;
  first_chunk_at = none;
  last_chunk_at = none;
  text = [];
  usage = none;
  delta_count = 0;
}

-- this.firstChunkAt ?? atMs
abbrev pub first_of : Option ℕ → ℕ → Option ℕ
first_of none at_ms = some at_ms
first_of (some t) at_ms = some t

-- The samples after a chunk.
abbrev pub sampled : RequestRecorder → ℕ → List ℤ
sampled r at_ms = elim r.first_chunk_at [
  | none ↦ r.itl
  | some t ↦ elim r.last_chunk_at [
    | none ↦ r.itl
    | some last ↦ if ltb (length r.itl) r.max_itl then r.itl ++ minus at_ms last ∷ [] else r.itl
  ]
]

unfoldable pub chunk : Text → ℕ → RequestRecorder → RequestRecorder
chunk text at_ms r = record r {
  itl = sampled r at_ms;
  first_chunk_at = first_of r.first_chunk_at at_ms;
  last_chunk_at = some at_ms;
  text = r.text ++ text;
}

-- The arguments of `finish` that matter here.
pub record FinishMeta : Type 0 where
  pub content_type : Option Text

pub record TraceTimes : Type 0 where
  pub ttft_ms : Option ℤ
  pub duration_ms : ℤ
  pub stream : Bool
  pub prompt_tokens : Option ℕ
  pub completion_tokens : Option ℕ
  pub itl : List ℤ

-- s.includes(part)
unfoldable pub includes : Text → Text → Bool
includes part [] = elim part [ [] ↦ true | _ ↦ false ]
includes part (c ∷ cs) =
    let later = includes part cs in
    elim (strip_prefix part (c ∷ cs)) [ none ↦ later | some rest ↦ true ]

abbrev text_or_empty : Option Text → Text
text_or_empty none = []
text_or_empty (some t) = t

-- parsed.choices?.[0]?.delta?.content, where it is truthy
abbrev pub has_delta : List Choice → Bool
has_delta [] = false
has_delta (c ∷ cs) = elim c.delta_content [ none ↦ false | some [] ↦ false | some (d ∷ ds) ↦ true ]

-- b where there is one, else a
abbrev pub replaced : Option RawUsage → Option RawUsage → Option RawUsage
replaced a none = a
replaced a (some b) = some b

abbrev pub prompt_of : Option RawUsage → Option ℕ
prompt_of none = none
prompt_of (some u) = u.prompt_tokens

-- usage?.completion_tokens ?? (stream && this.deltaCount > 0 ? this.deltaCount : null)
abbrev pub completion_of : Option RawUsage → Option ℕ → Option ℕ
completion_of none estimate = estimate
completion_of (some u) estimate = elim u.completion_tokens [ none ↦ estimate | some n ↦ some n ]

module _ (json_parse : Text → Option ChatChunk) where
  -- The value of a line that carries one.
  unfoldable pub line_value : Text → Option ChatChunk
  line_value line = elim (payload_of (trim line)) [
    | none ↦ none
    | some payload ↦ json_parse payload
  ]

  -- The loop of `observeStream` over the lines.
  unfoldable pub observe_lines : List Text → RequestRecorder → RequestRecorder
  unfolding line_value
  observe_lines [] r = r
  observe_lines (line ∷ lines) r = elim (line_value line) [
    | none ↦ observe_lines lines r
    | some parsed ↦ observe_lines lines (record r {
      usage = replaced r.usage parsed.usage;
      delta_count = if has_delta parsed.choices then suc r.delta_count else r.delta_count;
    })
  ]

  -- The loop of `extractUsage` over the lines of a stream.
  unfoldable pub find_usage : List Text → Option RawUsage
  unfolding line_value
  find_usage [] = none
  find_usage (line ∷ lines) = elim (line_value line) [
    | none ↦ find_usage lines
    | some parsed ↦ elim parsed.usage [ none ↦ find_usage lines | some u ↦ some u ]
  ]

  unfoldable pub extract_usage : Text → Bool → Option RawUsage
  unfolding find_usage
  extract_usage text true = find_usage (split 10 text)
  extract_usage text false = elim (json_parse text) [ none ↦ none | some parsed ↦ parsed.usage ]

  abbrev pub observed : Bool → RequestRecorder → RequestRecorder
  observed stream r = if stream then observe_lines (split 10 r.text) r else r

  -- this.usage ?? extractUsage(this.text, stream)
  abbrev pub usage_or : Option RawUsage → Option RawUsage → Option RawUsage
  usage_or none other = other
  usage_or (some u) other = some u

  unfoldable pub finish : ℕ → FinishMeta → RequestRecorder → RequestRecorder × TraceTimes
  unfolding observe_lines extract_usage
  finish now meta r =
      let stream = includes (codes "text/event-stream") (text_or_empty meta.content_type) in
      let seen = observed stream r in
      let usage = usage_or seen.usage (extract_usage seen.text stream) in
      (
        seen,
        record {
          ttft_ms = elim seen.first_chunk_at [
            | none ↦ none
            | some t ↦ some (minus t seen.started_at)
          ];
          duration_ms = minus now seen.started_at;
          stream = stream;
          prompt_tokens = prompt_of usage;
          completion_tokens =
              completion_of usage
                (if stream && ltb 0 seen.delta_count then some seen.delta_count else none);
          itl = seen.itl;
        },
      )
