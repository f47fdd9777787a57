-- ===== src/Chat/Store/Integrity.antt =====
-- server/src/chat/store.ts: every operation keeps the references and the cap.
use dgx_control_center.Prelude.{
  not, ◌&&◌, codes, String, ℕ, ◌≡◌, inl, inr, refl, subst, Bool, true, false, Option, none, some,
  List, [], ◌∷◌, arith, length, ltb, Bool-cases, Option-cases, if◌then◌else◌,
}
use dgx_control_center.Dict.{get, put}
use dgx_control_center.Dict.Keys.{put-All, All-get}
use dgx_control_center.Chat.Store.{
  or_text, has_value, title_or, is_empty_patch, Text, ChatFolder, ChatConversation, ChatMessage,
  ChatAttachment, ChatStore, ConversationPatch, MessageInput, max_attachment_bytes, create_folder,
  update_folder, create_conversation, update_conversation, append_message, add_attachment, has,
  folder_ok, folder_or,
}
use dgx_control_center.Chat.Store.Laws.{
  IsIntact, InFolder, OfMessage, Operation, make_folder, edit_folder, drop_folder,
  make_conversation, edit_conversation, drop_conversation, append, attach, first_or, apply, run,
  folder_keeps, conversation_keeps, message_keeps, drop_folder-IsIntact, drop_conversation-IsIntact,
  has-put_self,
}

either_IsIntact :
    {A : Type 0} (b : Bool) (x y : ChatStore × A)
    → IsIntact x.0
    → IsIntact y.0
    → IsIntact (if b then x else y).0
either_IsIntact true x y hx hy = hx
either_IsIntact false x y hx hy = hy

edit_folder-IsIntact :
    (now : ℕ) (id : String) (name description : Option String) (s : ChatStore)
    → IsIntact s
    → IsIntact (update_folder now id name description s).0
unfolding update_folder
edit_folder-IsIntact now id name description s h = elim (Option-cases (get id s.folders)) [
  | inl e ↦ rw (update_folder, e) h
  | inr (f, e) ↦
      rw (update_folder, e)
        (let changed : ChatFolder = record f {
          name = or_text name f.name;
          description = or_text description f.description;
          updated_at = now;
        } in
          either_IsIntact (not (has_value name) && not (has_value description)) (s, some f)
            (record s { folders = put id changed s.folders }, some changed) h
            (folder_keeps id changed s h))
]

folder_ok-InFolder :
    (folder : Option String) (s : ChatStore) (c : ChatConversation)
    → c.folder_id ≡ folder
    → folder_ok folder s ≡ true
    → InFolder s.folders c
folder_ok-InFolder folder s c e ok = elim (Option-cases folder) [
  | inl none_given ↦ ground arith
  | inr (f, given) ↦ ground arith
]

make_conversation-IsIntact :
    (now : ℕ) (id : String) (title : Option Text) (folder : Option String) (model : String)
    (s : ChatStore)
    → IsIntact s
    → IsIntact (first_or (create_conversation now id title folder model s) s)
unfolding create_conversation
make_conversation-IsIntact now id title folder model s h = elim (Bool-cases (folder_ok folder s)) [
  | inr e ↦ rw (create_conversation, e) h
  | inl e ↦
      let row : ChatConversation = record {
        id = id;
        folder_id = folder;
        title = title_or title (codes "New chat");
        model = model;
        created_at = now;
        updated_at = now;
      } in
      rw (create_conversation, e)
        (conversation_keeps id row s (folder_ok-InFolder folder s row refl e) h)
]

-- The reference of a patch is checked where the patch names a folder, and else is the old one.
patched-InFolder :
    (p : ConversationPatch) (s : ChatStore) (old new : ChatConversation)
    → new.folder_id ≡ folder_or p.folder old.folder_id
    → folder_ok (folder_or p.folder none) s ≡ true
    → InFolder s.folders old
    → InFolder s.folders new
patched-InFolder p s old new e ok h = elim (Option-cases p.folder) [
  | inl same ↦
      subst (λ (o : Option String). elim o [ none ↦ Unit | some f ↦ has f s.folders ≡ true ])
        {x = old.folder_id} (ground arith) h
  | inr (folder, given) ↦ folder_ok-InFolder folder s new (ground arith) (ground arith)
]

edit_conversation-IsIntact :
    (now : ℕ) (id : String) (p : ConversationPatch) (s : ChatStore)
    → IsIntact s
    → IsIntact (first_or (update_conversation now id p s) s)
unfolding update_conversation
edit_conversation-IsIntact now id p s (d, cs, ms, ats) =
    elim (Option-cases (get id s.conversations)) [
      | inl e ↦ rw (update_conversation, e) (d, cs, ms, ats)
      | inr (c, e) ↦ elim (Bool-cases (is_empty_patch p)) [
        | inl nothing ↦ rw (update_conversation, e, nothing) (d, cs, ms, ats)
        | inr something ↦ elim (Bool-cases (folder_ok (folder_or p.folder none) s)) [
          | inr bad ↦ rw (update_conversation, e, something, bad) (d, cs, ms, ats)
          | inl ok ↦
              let changed : ChatConversation = record c {
                title = title_or p.title c.title;
                folder_id = folder_or p.folder c.folder_id;
                model = or_text p.model c.model;
                updated_at = now;
              } in
              rw (update_conversation, e, something, ok)
                (conversation_keeps id changed s
                  (patched-InFolder p s c changed refl ok
                    (All-get (InFolder s.folders) s.conversations id cs e))
                  (d, cs, ms, ats))
        ]
      ]
    ]

append-IsIntact :
    (now : ℕ) (id : String) (input : MessageInput) (s : ChatStore)
    → IsIntact s
    → IsIntact (append_message now id input s).0
unfolding append_message
append-IsIntact now id input s (d, cs, ms, ats) =
    elim (Option-cases (get input.conversation_id s.conversations)) [
      | inl e ↦ rw (append_message, e) (d, cs, ms, ats)
      | inr (c, e) ↦
          let seen : ChatConversation = record c { updated_at = now } in
          let k = input.conversation_id in
          let there : InFolder s.folders c = All-get (InFolder s.folders) s.conversations k cs e in
          let touched : ChatStore = record s { conversations = put k seen s.conversations } in
          let row : ChatMessage = record {
            id = id;
            conversation_id = k;
            role = input.role;
            content = input.content;
            model = input.model;
            error = input.error;
            ttft_ms = input.ttft_ms;
            duration_ms = input.duration_ms;
            usage = input.usage;
            created_at = now;
          } in
          rw (append_message, e)
            (message_keeps id row touched (has-put_self k seen s.conversations)
              (conversation_keeps k seen s there (d, cs, ms, ats)))
    ]

attach-IsIntact :
    (id message_id name mime : String) (data_bytes : List ℕ) (s : ChatStore)
    → IsIntact s
    → IsIntact (add_attachment id message_id name mime data_bytes s).0
unfolding add_attachment
attach-IsIntact id message_id name mime data_bytes s (d, cs, ms, ats) =
    elim (Option-cases (get message_id s.messages)) [
      | inl e ↦ rw (add_attachment, e) (d, cs, ms, ats)
      | inr (m, e) ↦ elim (Bool-cases (ltb max_attachment_bytes (length data_bytes))) [
        | inl large ↦ rw (add_attachment, e, large) (d, cs, ms, ats)
        | inr fits ↦
            let row : ChatAttachment = record {
              id = id;
              message_id = message_id;
              name = name;
              mime = mime;
              bytes = length data_bytes;
              data_bytes = data_bytes;
            } in
            rw (add_attachment, e, fits)
              (
                d,
                cs,
                ms,
                put-All (OfMessage s.messages) id row s.attachments
                    (ground arith, refl, ground arith) ats,
              )
      ]
    ]

make_folder-IsIntact :
    (now : ℕ) (id name : String) (description : Option String) (s : ChatStore)
    → IsIntact s
    → IsIntact (create_folder now id name description s).0
unfolding create_folder
make_folder-IsIntact now id name description s h =
    folder_keeps id (create_folder now id name description s).1 s h

apply-IsIntact : (o : Operation) (s : ChatStore) → IsIntact s → IsIntact (apply o s)
apply-IsIntact (make_folder now id name description) s h =
    make_folder-IsIntact now id name description s h
apply-IsIntact (edit_folder now id name description) s h =
    edit_folder-IsIntact now id name description s h
apply-IsIntact (drop_folder id) s h = drop_folder-IsIntact id s h
apply-IsIntact (make_conversation now id title folder model) s h =
    make_conversation-IsIntact now id title folder model s h
apply-IsIntact (edit_conversation now id p) s h = edit_conversation-IsIntact now id p s h
apply-IsIntact (drop_conversation id) s h = drop_conversation-IsIntact id s h
apply-IsIntact (append now id input) s h = append-IsIntact now id input s h
apply-IsIntact (attach id message_id name mime data_bytes) s h =
    attach-IsIntact id message_id name mime data_bytes s h

-- From a store for which this holds, such as the empty one, it holds after any operations: no
-- conversation names a folder that is gone, no message a conversation that is gone, no attachment
-- a message that is gone, and every attachment has the size of its data, which is within the cap.
pub run-IsIntact : (os : List Operation) (s : ChatStore) → IsIntact s → IsIntact (run os s)
run-IsIntact [] s h = h
run-IsIntact (o ∷ os) s h = run-IsIntact os (apply o s) (apply-IsIntact o s h)
