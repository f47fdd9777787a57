-- ===== src/Chat/Sse.antt =====
-- server/src/chat/sse.ts: the accumulator of a streamed reply. The parsing of JSON is a parameter: it
-- returns what the source reads of the value, or nothing where parsing or reading throws.
pub mod Laws
use dgx_control_center.Prelude.{
  ℕ, zero, suc, Bool, true, false, not, ◌||◌, Option, none, some, List, [], ◌∷◌, ◌++◌, codes,
  length, trim, strip_prefix, ◌==◌, if◌then◌else◌,
}

abbrev pub Text : Type 0
Text = List ℕ

pub record RawUsage : Type 0 where
  pub prompt_tokens : Option ℕ
  pub completion_tokens : Option ℕ
  pub total_tokens : Option ℕ

-- One of `choices`; a content that is null or absent is `none`.
pub record Choice : Type 0 where
  pub delta_content : Option Text
  pub message_content : Option Text

pub record ChatChunk : Type 0 where
  pub usage : Option RawUsage
  pub choices : List Choice

pub record ChatUsage : Type 0 where
  pub prompt_tokens : Option ℕ
  pub completion_tokens : Option ℕ
  pub total_tokens : Option ℕ

abbrev pub map_usage : Option RawUsage → Option ChatUsage
map_usage none = none
map_usage (some u) = some (record {
  prompt_tokens = u.prompt_tokens;
  completion_tokens = u.completion_tokens;
  total_tokens = u.total_tokens;
})

pub record SseAccumulator : Type 0 where
  pub buffer : Text
  pub text : Text
  pub observed_usage : Option ChatUsage

abbrev pub empty : SseAccumulator
empty = record { buffer = []; text = []; observed_usage = none }

-- a ?? b
abbrev pub or_else {ℓ} : {A : Type ℓ} → Option A → Option A → Option A
or_else none b = b
or_else (some a) b = some a

abbrev or_empty : Option Text → Text
or_empty none = []
or_empty (some t) = t

abbrev first : List Choice → Option Choice
first [] = none
first (c ∷ cs) = some c

abbrev delta_of : Option Choice → Option Text
delta_of none = none
delta_of (some c) = c.delta_content

abbrev message_of : Option Choice → Option Text
message_of none = none
message_of (some c) = c.message_content

-- The text that a frame adds.
abbrev pub content_of : ChatChunk → Text
content_of chunk =
    or_empty (or_else (delta_of (first chunk.choices)) (message_of (first chunk.choices)))

-- The payload is empty, or the mark that ends a stream.
abbrev pub is_done : Text → Bool
is_done [] = true
is_done (c ∷ cs) = elim (strip_prefix (codes "[DONE]") (c ∷ cs)) [ some [] ↦ true | _ ↦ false ]

-- The payload of a trimmed line that has one.
unfoldable pub payload_of : Text → Option Text
payload_of line = elim (strip_prefix (codes "data:") line) [
  | none ↦ none
  | some rest ↦ if is_done (trim rest) then none else some (trim rest)
]

-- The text before the first newline, and what is behind it.
unfoldable pub cut_line : Text → Option (Text × Text)
cut_line [] = none
cut_line (c ∷ cs) =
    let rest = cut_line cs in
    if c == 10
    then some ([], cs)
    else elim rest [ none ↦ none | some (line, behind) ↦ some (c ∷ line, behind) ]

module _ (json_parse : Text → Option ChatChunk) where
  unfoldable pub consume_line : Text → SseAccumulator → SseAccumulator
  consume_line line s = elim (payload_of line) [
    | none ↦ s
    | some payload ↦ elim (json_parse payload) [
      | none ↦ s
      | some chunk ↦ record s {
        observed_usage = or_else (map_usage chunk.usage) s.observed_usage;
        text = s.text ++ content_of chunk;
      }
    ]
  ]

  -- The loop of `push`; each round takes a line from the buffer.
  unfoldable pub drain : ℕ → SseAccumulator → SseAccumulator
  unfolding consume_line
  drain zero s = s
  drain (suc fuel) s = elim (cut_line s.buffer) [
    | none ↦ s
    | some (line, behind) ↦ drain fuel (consume_line (trim line) (record s { buffer = behind }))
  ]

  -- The fuel is the length of the buffer and one round more.
  unfoldable pub push : Text → SseAccumulator → SseAccumulator
  unfolding drain
  push chunk s = drain (suc (length (s.buffer ++ chunk))) (record s { buffer = s.buffer ++ chunk })

  -- A chunk that arrives in pieces.
  abbrev pub push_all : List Text → SseAccumulator → SseAccumulator
  push_all [] s = s
  push_all (c ∷ cs) s = push_all cs (push c s)

  -- The message of a body that is not streamed.
  unfoldable pub parse_completion_body : Option Text → Option (Text × Option ChatUsage)
  parse_completion_body none = none
  parse_completion_body (some body) = elim (json_parse body) [
    | none ↦ none
    | some chunk ↦ some (or_empty (message_of (first chunk.choices)), map_usage chunk.usage)
  ]
