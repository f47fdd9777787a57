-- ===== src/Chat/Sse/Laws.antt =====
-- server/src/chat/sse.ts: the accumulator reads characters, however they are cut into chunks.
use mathlib.Core.List.{append-nil, append_assoc}
use dgx_control_center.Prelude.{
  ℕ, zero, suc, ◌<◌, ◌≡◌, refl, sym, ap, subst, ◌∙◌, inl, inr, false, Option, none, some, List, [],
  ◌∷◌, ◌++◌, arith, length, length-append, trim, All, All-append, ◌==◌, if◌then◌else◌, Bool-cases,
}
use dgx_control_center.Chat.Sse.{
  Text, ChatChunk, SseAccumulator, cut_line, consume_line, drain, push, push_all,
}

abbrev pub NoNewline : Text → Type 0
NoNewline t = All (λ c. (c == 10) ≡ false) t

cut_line-none : (w : Text) → NoNewline w → cut_line w ≡ none
unfolding cut_line
cut_line-none [] hs = refl
cut_line-none (c ∷ w) (h, hs) = ground (arith, cut_line-none w hs)

cut_line-append : (w cs : Text) → NoNewline w → cut_line (w ++ 10 ∷ cs) ≡ some (w, cs)
unfolding cut_line
cut_line-append [] cs hs = refl
cut_line-append (c ∷ w) cs (h, hs) = rw (h, cut_line-append w cs hs) refl

abbrev pub concat : List Text → Text
concat [] = []
concat (c ∷ cs) = c ++ concat cs

module _ (json_parse : Text → Option ChatChunk) where
  -- The reading of one character: a newline ends the line in the buffer.
  unfoldable pub read : ℕ → SseAccumulator → SseAccumulator
  unfolding consume_line
  read c s =
      if c == 10
      then consume_line json_parse (trim s.buffer) (record s { buffer = [] })
      else record s { buffer = s.buffer ++ c ∷ [] }

  unfoldable pub read_all : Text → SseAccumulator → SseAccumulator
  unfolding read
  read_all [] s = s
  read_all (c ∷ cs) s = read_all cs (read c s)

  consume_line-buffer :
      (line w : Text) (s : SseAccumulator)
      → consume_line json_parse line (record s { buffer = w })
        ≡ record (consume_line json_parse line s) { buffer = w }
  unfolding consume_line
  consume_line-buffer line w s = ground arith

  drain-read_all :
      (fuel : ℕ) (w cs : Text) (s : SseAccumulator)
      → NoNewline w
      → length cs < fuel
      → drain json_parse fuel (record s { buffer = w ++ cs })
        ≡ read_all cs (record s { buffer = w })
  unfolding drain read_all read
  drain-read_all zero w cs s hs h = absurd (omega arith)
  drain-read_all (suc fuel) w [] s hs h =
      ap (λ t. drain json_parse (suc fuel) (record s { buffer = t })) (append-nil w)
      ∙ rw (drain, cut_line-none w hs) refl
  drain-read_all (suc fuel) w (c ∷ cs) s hs h = elim (Bool-cases (c == 10)) [
    | inl newline ↦
        let cut : cut_line (w ++ c ∷ cs) ≡ some (w, cs) =
          ap (λ d. cut_line (w ++ d ∷ cs)) (ground arith) ∙ cut_line-append w cs hs in
        let seen = consume_line json_parse (trim w) s in
        rw (drain, cut, newline)
          (ap (drain json_parse fuel) (consume_line-buffer (trim w) cs s)
            ∙ drain-read_all fuel [] cs seen tt (omega arith)
            ∙ ap (read_all cs) (sym (consume_line-buffer (trim w) [] s)))
    | inr other ↦
        let solid = All-append (λ d. (d == 10) ≡ false) w (c ∷ []) hs (other, tt) in
        ap (λ t. drain json_parse (suc fuel) (record s { buffer = t }))
          (sym (append_assoc w (c ∷ []) cs))
        ∙ drain-read_all (suc fuel) (w ++ c ∷ []) cs s solid (omega arith)
        ∙ rw other refl
  ]

  read-NoNewline : (c : ℕ) (s : SseAccumulator) → NoNewline s.buffer → NoNewline (read c s).buffer
  unfolding read consume_line
  read-NoNewline c s hs = elim (Bool-cases (c == 10)) [
    | inl newline ↦ subst NoNewline {x = []} (ground arith) tt
    | inr other ↦ rw other (All-append (λ d. (d == 10) ≡ false) s.buffer (c ∷ []) hs (other, tt))
  ]

  read_all-NoNewline :
      (cs : Text) (s : SseAccumulator) → NoNewline s.buffer → NoNewline (read_all cs s).buffer
  unfolding read_all
  read_all-NoNewline [] s hs = hs
  read_all-NoNewline (c ∷ cs) s hs = read_all-NoNewline cs (read c s) (read-NoNewline c s hs)

  read_all-append :
      (a b : Text) (s : SseAccumulator) → read_all (a ++ b) s ≡ read_all b (read_all a s)
  unfolding read_all
  read_all-append [] b s = refl
  read_all-append (c ∷ a) b s = read_all-append a b (read c s)

  -- Where the buffer holds no full line, a chunk is read as its characters are, one by one: the fuel
  -- of the loop is enough.
  pub push-read_all :
      (chunk : Text) (s : SseAccumulator)
      → NoNewline s.buffer
      → push json_parse chunk s ≡ read_all chunk s
  unfolding push
  push-read_all chunk s hs =
      drain-read_all (suc (length (s.buffer ++ chunk))) s.buffer chunk s hs
        (omega (arith, length-append s.buffer chunk))

  -- The loop of `push` ends with no full line left in the buffer.
  pub push-NoNewline :
      (chunk : Text) (s : SseAccumulator)
      → NoNewline s.buffer
      → NoNewline (push json_parse chunk s).buffer
  push-NoNewline chunk s hs =
      subst (λ t. NoNewline t.buffer) (sym (push-read_all chunk s hs))
        (read_all-NoNewline chunk s hs)

  read_chunks :
      (cs : List Text) (s : SseAccumulator)
      → NoNewline s.buffer
      → push_all json_parse cs s ≡ read_all (concat cs) s
  unfolding read_all
  read_chunks [] s hs = refl
  read_chunks (c ∷ cs) s hs =
      read_chunks cs (push json_parse c s) (push-NoNewline c s hs)
      ∙ ap (read_all (concat cs)) (push-read_all c s hs)
      ∙ sym (read_all-append c (concat cs) s)

  -- Where the buffer holds no full line at first, the accumulator ends with the same text, usage
  -- and buffer however a reply is cut into chunks, and when the whole reply comes at once.
  pub push_all-concat :
      (cs : List Text) (s : SseAccumulator)
      → NoNewline s.buffer
      → push_all json_parse cs s ≡ push json_parse (concat cs) s
  push_all-concat cs s hs = read_chunks cs s hs ∙ sym (push-read_all (concat cs) s hs)
