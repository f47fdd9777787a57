-- ===== src/Gateway/Recorder/Laws.antt =====
-- server/src/gateway/recorder.ts: the samples of a response, and the usage of a stream.
use mathlib.Core.List.{append-nil, append_assoc}
use dgx_control_center.Prelude.{
  ℕ, zero, suc, ◌+◌, ◌≤◌, ◌≡◌, refl, sym, ap, ◌∙◌, inl, inr, true, Option, none, some, List, [],
  ◌∷◌, ◌++◌, ℤ, split, arith, length, take, length-append, ltb, if◌then◌else◌, Bool-cases,
  Option-cases,
}
use dgx_control_center.Chat.Sse.{Text, RawUsage, ChatChunk}
use dgx_control_center.Gateway.Recorder.{
  RequestRecorder, start, chunk, sampled, minus, line_value, observe_lines, find_usage, replaced,
  has_delta, finish, FinishMeta, prompt_of, completion_of, extract_usage, usage_or,
}

-- The chunks of a response, each with its time of arrival.
abbrev pub feed : List (Text × ℕ) → RequestRecorder → RequestRecorder
feed [] r = r
feed ((t, at_ms) ∷ cs) r = feed cs (chunk t at_ms r)

-- The times between each chunk and the one before.
abbrev pub gaps : ℕ → List (Text × ℕ) → List ℤ
gaps last [] = []
gaps last ((t, at_ms) ∷ cs) = minus at_ms last ∷ gaps at_ms cs

take_full : (n : ℕ) (xs ys : List ℤ) → n ≤ length xs → take n (xs ++ ys) ≡ take n xs
take_full zero xs ys h = refl
take_full (suc n) [] ys h = absurd (omega arith)
take_full (suc n) (x ∷ xs) ys h = ap (◌∷◌ x) (take_full n xs ys (omega arith))

take_all : (n : ℕ) (xs : List ℤ) → length xs ≤ n → take n xs ≡ xs
take_all zero [] h = refl
take_all zero (x ∷ xs) h = absurd (omega arith)
take_all (suc n) [] h = refl
take_all (suc n) (x ∷ xs) h = ap (◌∷◌ x) (take_all n xs (omega arith))

feed-gaps :
    (cs : List (Text × ℕ)) (r : RequestRecorder) (first last : ℕ)
    → r.first_chunk_at ≡ some first
    → r.last_chunk_at ≡ some last
    → length r.itl ≤ r.max_itl
    → (feed cs r).itl ≡ take r.max_itl (r.itl ++ gaps last cs)
unfolding chunk
feed-gaps [] r first last f l h = rw append-nil (sym (take_all r.max_itl r.itl h))
feed-gaps ((t, at_ms) ∷ cs) r first last f l h = elim (Bool-cases (ltb (length r.itl) r.max_itl)) [
  | inl room ↦
      let same : sampled r at_ms ≡ r.itl ++ minus at_ms last ∷ [] = ground arith in
      feed-gaps cs (chunk t at_ms r) first at_ms (ground arith) refl
        (ground (arith, length-append r.itl (minus at_ms last ∷ [])))
      ∙ ap (λ x. take r.max_itl (x ++ gaps at_ms cs)) same
      ∙ ap (take r.max_itl) (append_assoc r.itl (minus at_ms last ∷ []) (gaps at_ms cs))
  | inr full ↦
      let same : sampled r at_ms ≡ r.itl = ground arith in
      feed-gaps cs (chunk t at_ms r) first at_ms (ground arith) refl (ground arith)
      ∙ ap (λ x. take r.max_itl (x ++ gaps at_ms cs)) same
      ∙ take_full r.max_itl r.itl (gaps at_ms cs) (ground arith)
      ∙ sym (take_full r.max_itl r.itl (minus at_ms last ∷ gaps at_ms cs) (ground arith))
]

-- The samples of a response are the times between its chunks, in order and cut off at the limit, and
-- its first chunk is the first that came.
pub feed-start :
    (max_itl now : ℕ) (t : Text) (at_ms : ℕ) (cs : List (Text × ℕ))
    → (feed ((t, at_ms) ∷ cs) (start max_itl now)).itl ≡ take max_itl (gaps at_ms cs)
unfolding chunk
feed-start max_itl now t at_ms cs =
    feed-gaps cs (chunk t at_ms (start max_itl now)) at_ms at_ms refl refl (omega arith)

replaced_assoc : (a b c : Option RawUsage) → replaced (replaced a b) c ≡ replaced a (replaced b c)
replaced_assoc a none none = refl
replaced_assoc a (some b) none = refl
replaced_assoc a b (some c) = refl

replaced_left : (b : Option RawUsage) → replaced none b ≡ b
replaced_left none = refl
replaced_left (some b) = refl

replaced-none : (a b : Option RawUsage) → replaced a b ≡ none → (a ≡ none) × (b ≡ none)
replaced-none none none e = (refl, refl)
replaced-none (some a) none e = absurd (ground arith)
replaced-none a (some b) e = absurd (ground arith)

abbrev usage_of : Option ChatChunk → Option RawUsage
usage_of none = none
usage_of (some parsed) = parsed.usage

abbrev delta_of : Option ChatChunk → ℕ
delta_of none = 0
delta_of (some parsed) = if has_delta parsed.choices then 1 else 0

module _ (json_parse : Text → Option ChatChunk) where
  -- The usage that the last line with one reports.
  abbrev pub last_usage : List Text → Option RawUsage
  last_usage [] = none
  last_usage (line ∷ lines) = replaced (usage_of (line_value json_parse line)) (last_usage lines)

  -- The number of lines that add content.
  abbrev pub deltas : List Text → ℕ
  deltas [] = 0
  deltas (line ∷ lines) = delta_of (line_value json_parse line) + deltas lines

  observe_lines_lem :
      (lines : List Text) (r : RequestRecorder)
      → ((observe_lines json_parse lines r).usage ≡ replaced r.usage (last_usage lines))
        × ((observe_lines json_parse lines r).delta_count ≡ r.delta_count + deltas lines)
        × ((observe_lines json_parse lines r).text ≡ r.text)
  unfolding observe_lines
  observe_lines_lem [] r = (refl, omega arith, refl)
  observe_lines_lem (line ∷ lines) r = elim (Option-cases (line_value json_parse line)) [
    | inl f ↦
        let (u, d, t) = observe_lines_lem lines r in
        (
          rw (observe_lines, f)
              (u ∙ ap (replaced r.usage) (sym (replaced_left (last_usage lines)))),
          rw (observe_lines, f) (d ∙ omega arith),
          rw (observe_lines, f) t,
        )
    | inr (parsed, f) ↦
        let next : RequestRecorder = record r {
          usage = replaced r.usage parsed.usage;
          delta_count = if has_delta parsed.choices then suc r.delta_count else r.delta_count;
        } in
        let (u, d, t) = observe_lines_lem lines next in
        (
          rw (observe_lines, f) (u ∙ replaced_assoc r.usage parsed.usage (last_usage lines)),
          rw (observe_lines, f) (d ∙ ground arith),
          rw (observe_lines, f) t,
        )
  ]

  find_usage-last_usage :
      (lines : List Text) → last_usage lines ≡ none → find_usage json_parse lines ≡ none
  unfolding find_usage
  find_usage-last_usage [] e = refl
  find_usage-last_usage (line ∷ lines) e =
      let (here, later) =
        replaced-none (usage_of (line_value json_parse line)) (last_usage lines) e in
      let rest = find_usage-last_usage lines later in
      elim (Option-cases (line_value json_parse line)) [
        | inl f ↦ rw (find_usage, f) rest
        | inr (parsed, f) ↦
            let silent : parsed.usage ≡ none = ap usage_of (sym f) ∙ here in
            rw (find_usage, f, silent) rest
      ]

  usage_or-last_usage :
      (r : RequestRecorder)
      → r.usage ≡ none
      → let lines = split 10 r.text in
        let seen = observe_lines json_parse lines r in
        usage_or json_parse seen.usage (extract_usage json_parse seen.text true) ≡ last_usage lines
  unfolding extract_usage
  usage_or-last_usage r none_yet =
      let lines = split 10 r.text in
      let (u, d, t) = observe_lines_lem lines r in
      elim (Option-cases (last_usage lines)) [
        | inl e ↦ let missing = find_usage-last_usage lines e in rw (u, t, none_yet, e) missing
        | inr (v, e) ↦ rw (u, none_yet, e) refl
      ]

  -- For a recorder that has counted nothing yet, the token counts of a stream that ends are those
  -- of the last line that reports a usage; a completion count that this usage does not give is
  -- the number of lines that add content, if any does.
  pub finish_stream :
      (now : ℕ) (meta : FinishMeta) (r : RequestRecorder)
      → r.usage ≡ none
      → r.delta_count ≡ 0
      → (finish json_parse now meta r).1.stream ≡ true
      → let lines = split 10 r.text in
        ((finish json_parse now meta r).1.prompt_tokens ≡ prompt_of (last_usage lines))
        × ((finish json_parse now meta r).1.completion_tokens
            ≡ completion_of
                (last_usage lines)
                (if ltb 0 (deltas lines) then some (deltas lines) else none))
  unfolding finish extract_usage
  finish_stream now meta r none_yet zero_yet stream =
      let lines = split 10 r.text in
      let (u, d, t) = observe_lines_lem lines r in
      let same = usage_or-last_usage r none_yet in
      let count : (observe_lines json_parse lines r).delta_count ≡ deltas lines =
        d ∙ omega (arith, zero_yet) in
      rw (finish, stream) (ap prompt_of same, rw (same, count) refl)
