-- ===== src/Chat/Store/Laws.antt =====
-- server/src/chat/store.ts: the references between the tables and the cap on attachments.
use dgx_control_center.Prelude.{
  String, ℕ, ◌≤◌, ◌≡◌, inl, inr, Bool, true, false, not, Option, none, some, List, [], ◌∷◌, arith,
  eq_iff, length, ◌===◌, All, Bool-cases, Option-cases,
}
use dgx_control_center.Dict.{Dict, get, put, remove, get-put, get-remove, get-put_self}
use dgx_control_center.Dict.Keys.{
  IsDistinct, put-IsDistinct, keep-IsDistinct, get-keep, keep, put-All, remove-All,
}
use dgx_control_center.Chat.Store.{
  Text, ChatFolder, ChatConversation, ChatMessage, ChatAttachment, ChatStore, ConversationPatch,
  MessageInput, max_attachment_bytes, create_folder, update_folder, delete_folder,
  create_conversation, update_conversation, delete_conversation, append_message, add_attachment,
  map_values, detach, has, is_of,
}

-- The conversation's folder is there, where it has one.
abbrev pub InFolder : Dict ChatFolder → ChatConversation → Type 0
InFolder folders c = elim c.folder_id [ none ↦ Unit | some f ↦ has f folders ≡ true ]

abbrev pub InConversation : Dict ChatConversation → ChatMessage → Type 0
InConversation conversations m = has m.conversation_id conversations ≡ true

-- The message is there, the size is that of the data, and the data is within the cap.
abbrev pub OfMessage : Dict ChatMessage → ChatAttachment → Type 0
OfMessage messages a =
    (has a.message_id messages ≡ true)
    × (a.bytes ≡ length a.data_bytes)
    × (a.bytes ≤ max_attachment_bytes)

abbrev pub IsIntact : ChatStore → Type 0
IsIntact s =
    IsDistinct s.messages
    × All (λ e. InFolder s.folders e.1) s.conversations
    × All (λ e. InConversation s.conversations e.1) s.messages
    × All (λ e. OfMessage s.messages e.1) s.attachments

module _ {ℓ κ} {V : Type ℓ} (P Q : V → Type κ) where
  pub All-imp : ((v : V) → P v → Q v) → (m : Dict V) → All (λ e. P e.1) m → All (λ e. Q e.1) m
  All-imp f [] hs = tt
  All-imp f ((k, v) ∷ m) (h, hs) = (f v h, All-imp f m hs)

  -- A filter that only lets through what passes a test.
  All-keep :
      (p : V → Bool) (m : Dict V)
      → ((v : V) → p v ≡ true → P v → Q v)
      → All (λ e. P e.1) m
      → All (λ e. Q e.1) (keep p m)
  All-keep p [] f hs = tt
  All-keep p ((k, v) ∷ m) f (h, hs) = elim (Bool-cases (p v)) [
    | inl e ↦ rw e (f v e h, All-keep p m f hs)
    | inr e ↦ rw e (All-keep p m f hs)
  ]

  All-map_values :
      (g : V → V) (m : Dict V)
      → ((v : V) → P v → Q (g v))
      → All (λ e. P e.1) m
      → All (λ e. Q e.1) (map_values g m)
  All-map_values g [] f hs = tt
  All-map_values g ((k, v) ∷ m) f (h, hs) = (f v h, All-map_values g m f hs)

pub has-put :
    {V : Type 0} (j k : String) (v : V) (m : Dict V) → has j m ≡ true → has j (put k v m) ≡ true
has-put j k v m h = ground (arith, get-put k j v m)

pub has-put_self : {V : Type 0} (k : String) (v : V) (m : Dict V) → has k (put k v m) ≡ true
has-put_self k v m = ground (arith, get-put_self k v m)

has-remove :
    {V : Type 0} (j k : String) (m : Dict V)
    → (k === j) ≡ false
    → has j m ≡ true
    → has j (remove k m) ≡ true
has-remove j k m other h = ground (arith, get-remove k j m)

has-map_values :
    {V : Type 0} (f : V → V) (j : String) (m : Dict V)
    → has j m ≡ true
    → has j (map_values f m) ≡ true
unfolding get
has-map_values f j [] h = h
has-map_values f j ((k, v) ∷ m) h = ground (arith, has-map_values f j m)

pub folder-put :
    (k : String) (f : ChatFolder) (folders : Dict ChatFolder) (c : ChatConversation)
    → InFolder folders c
    → InFolder (put k f folders) c
folder-put k f folders c h = elim (Option-cases c.folder_id) [
  | inl e ↦ ground arith
  | inr (j, e) ↦ ground (arith, has-put j k f folders)
]

-- The operations of the store that change it.
pub data Operation : Type 0 where
  make_folder : (now : ℕ) (id name : String) → Option String → Operation
  edit_folder : (now : ℕ) (id : String) (name description : Option String) → Operation
  drop_folder : (id : String) → Operation
  make_conversation :
      (now : ℕ) (id : String) → Option Text → Option String → (model : String) → Operation
  edit_conversation : (now : ℕ) (id : String) → ConversationPatch → Operation
  drop_conversation : (id : String) → Operation
  append : (now : ℕ) (id : String) → MessageInput → Operation
  attach : (id message_id name mime : String) → List ℕ → Operation

-- The store after an operation; one that the database refuses leaves it as it was.
abbrev pub first_or {ℓ} : {A : Type ℓ} → Option (ChatStore × A) → ChatStore → ChatStore
first_or none s = s
first_or (some r) s = r.0

abbrev pub apply : Operation → ChatStore → ChatStore
apply (make_folder now id name description) s = (create_folder now id name description s).0
apply (edit_folder now id name description) s = (update_folder now id name description s).0
apply (drop_folder id) s = (delete_folder id s).0
apply (make_conversation now id title folder model) s =
    first_or (create_conversation now id title folder model s) s
apply (edit_conversation now id p) s = first_or (update_conversation now id p s) s
apply (drop_conversation id) s = (delete_conversation id s).0
apply (append now id input) s = (append_message now id input s).0
apply (attach id message_id name mime data_bytes) s =
    (add_attachment id message_id name mime data_bytes s).0

abbrev pub run : List Operation → ChatStore → ChatStore
run [] s = s
run (o ∷ os) s = run os (apply o s)

pub folder_keeps :
    (k : String) (f : ChatFolder) (s : ChatStore)
    → IsIntact s
    → IsIntact (record s { folders = put k f s.folders })
folder_keeps k f s (d, cs, ms, ats) = (
  d,
  All-imp (InFolder s.folders) (InFolder (put k f s.folders)) (folder-put k f s.folders)
      s.conversations cs,
  ms,
  ats,
)

pub conversation_keeps :
    (k : String) (c : ChatConversation) (s : ChatStore)
    → InFolder s.folders c
    → IsIntact s
    → IsIntact (record s { conversations = put k c s.conversations })
conversation_keeps k c s h (d, cs, ms, ats) = (
  d,
  put-All (InFolder s.folders) k c s.conversations h cs,
  All-imp (InConversation s.conversations) (InConversation (put k c s.conversations))
      (λ m. has-put m.conversation_id k c s.conversations) s.messages ms,
  ats,
)

pub message_keeps :
    (k : String) (m : ChatMessage) (s : ChatStore)
    → InConversation s.conversations m
    → IsIntact s
    → IsIntact (record s { messages = put k m s.messages })
message_keeps k m s h (d, cs, ms, ats) = (
  put-IsDistinct k m s.messages d,
  cs,
  put-All (InConversation s.conversations) k m s.messages h ms,
  All-imp (OfMessage s.messages) (OfMessage (put k m s.messages))
      (λ a (there, size, cap). (has-put a.message_id k m s.messages there, size, cap)) s.attachments
      ats,
)

detach-InFolder :
    (id : String) (folders : Dict ChatFolder) (c : ChatConversation)
    → InFolder folders c
    → InFolder (remove id folders) (detach id c)
detach-InFolder id folders c h = elim (Option-cases c.folder_id) [
  | inl e ↦ ground arith
  | inr (j, e) ↦ ground (arith, has-remove j id folders, eq_iff j id, eq_iff id j)
]

pub drop_folder-IsIntact :
    (id : String) (s : ChatStore) → IsIntact s → IsIntact (delete_folder id s).0
unfolding delete_folder
drop_folder-IsIntact id s (d, cs, ms, ats) = elim (Option-cases (get id s.folders)) [
  | inl e ↦ rw (delete_folder, e) (d, cs, ms, ats)
  | inr (f, e) ↦
      rw (delete_folder, e)
        (
          d,
          All-map_values (InFolder s.folders) (InFolder (remove id s.folders)) (detach id)
              s.conversations (detach-InFolder id s.folders) cs,
          All-imp (InConversation s.conversations)
              (InConversation (map_values (detach id) s.conversations))
              (λ m. has-map_values (detach id) m.conversation_id s.conversations) s.messages ms,
          ats,
        )
]

kept_message :
    (id : String) (s : ChatStore) (a : ChatAttachment)
    → IsDistinct s.messages
    → not (is_of id (get a.message_id s.messages)) ≡ true
    → OfMessage s.messages a
    → OfMessage (keep (λ m. not (is_of id (some m))) s.messages) a
kept_message id s a d kept (there, size, cap) = (
  ground (arith, get-keep (λ (m : ChatMessage). not (is_of id (some m))) a.message_id s.messages d),
  size,
  cap,
)

pub drop_conversation-IsIntact :
    (id : String) (s : ChatStore) → IsIntact s → IsIntact (delete_conversation id s).0
unfolding delete_conversation
drop_conversation-IsIntact id s (d, cs, ms, ats) = elim (Option-cases (get id s.conversations)) [
  | inl e ↦ rw (delete_conversation, e) (d, cs, ms, ats)
  | inr (f, e) ↦
      rw (delete_conversation, e)
        (
          keep-IsDistinct (λ m. not (is_of id (some m))) s.messages d,
          remove-All (InFolder s.folders) id s.conversations cs,
          All-keep (InConversation s.conversations) (InConversation (remove id s.conversations))
              (λ m. not (is_of id (some m))) s.messages
              (λ m other h.
                has-remove m.conversation_id id s.conversations
                  (ground (arith, eq_iff id m.conversation_id, eq_iff m.conversation_id id)) h)
              ms,
          All-keep (OfMessage s.messages)
              (OfMessage (keep (λ m. not (is_of id (some m))) s.messages))
              (λ a. not (is_of id (get a.message_id s.messages))) s.attachments
              (λ a kept h. kept_message id s a d kept h) ats,
        )
]
