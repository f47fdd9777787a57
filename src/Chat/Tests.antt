-- ===== src/Chat/Tests.antt =====
-- The chat at concrete inputs.
use dgx_control_center.Prelude.{
  strip_prefix, trim_start, trim_end, ◌≡◌, refl, Option, none, some, List, [], ◌∷◌, codes,
}
use dgx_control_center.Chat.Sse.{
  Text, ChatChunk, empty, push, push_all, payload_of, consume_line, cut_line, drain,
}
use dgx_control_center.Chat.Sse.Laws.{concat, read_all, push-read_all, push_all-concat}
use dgx_control_center.Chat.Store.{empty_store, user}
use dgx_control_center.Chat.Store.Laws.{
  IsIntact, Operation, make_folder, make_conversation, append, attach, drop_folder,
  drop_conversation, run,
}
use dgx_control_center.Chat.Store.Integrity.{run-IsIntact}

-- A parser that takes every payload for the text that a frame adds.
abbrev echo : Text → Option ChatChunk
echo t = some (record {
  usage = none;
  choices = record { delta_content = some t; message_content = none } ∷ [];
})

abbrev pieces : List Text
pieces = codes "data: a" ∷ codes "b\n\ndata: [DONE]\nda" ∷ codes "ta: c\n" ∷ []

frames : (push_all echo pieces empty).text ≡ codes "abc"
unfolding push drain consume_line payload_of cut_line strip_prefix trim_start trim_end
frames = refl

push-read_all_example :
    push echo (codes "data: a\n") empty ≡ read_all echo (codes "data: a\n") empty
push-read_all_example = push-read_all echo (codes "data: a\n") empty tt

push_all-concat_example : push_all echo pieces empty ≡ push echo (concat pieces) empty
push_all-concat_example = push_all-concat echo pieces empty tt

abbrev history : List Operation
history =
    make_folder 1 "f1" "Work" none
    ∷ make_conversation 2 "c1" none (some "f1") "qwen"
    ∷ append 3 "m1" (record {
      conversation_id = "c1";
      role = user;
      content = codes "hi";
      model = none;
      error = none;
      ttft_ms = none;
      duration_ms = none;
      usage = none;
    })
    ∷ attach "a1" "m1" "x.png" "image/png" (1 ∷ 2 ∷ [])
    ∷ drop_folder "f1"
    ∷ drop_conversation "c1"
    ∷ []

run-IsIntact_example : IsIntact (run history empty_store)
run-IsIntact_example = run-IsIntact history empty_store (tt, tt, tt, tt)
