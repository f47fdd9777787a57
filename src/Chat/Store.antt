-- ===== src/Chat/Store.antt =====
-- server/src/chat/store.ts: folders, conversations, messages and attachments. Each table of the
-- database is a map from its primary key; the references between the tables act as server/src/stores/db.ts
-- declares them. Generated ids are parameters; the ordered lists of the queries are left out.
pub mod Laws
pub mod Titles
pub mod Integrity
use dgx_control_center.Prelude.{
  String, ℕ, ◌*◌, Bool, true, false, not, ◌&&◌, Option, none, some, List, [], ◌∷◌, ◌++◌, length,
  take, select, map, codes, trim, is_space, ltb, ◌===◌, if◌then◌else◌,
}
use dgx_control_center.Dict.{Dict, get, put, remove, values}
use dgx_control_center.Dict.Keys.{keep}
use dgx_control_center.Chat.Sse.{ChatUsage}

abbrev pub Text : Type 0
Text = List ℕ

pub data ChatRole : Type 0 where
  system user assistant : ChatRole

-- MAX_ATTACHMENT_BYTES
abbrev pub max_attachment_bytes : ℕ
max_attachment_bytes = 8 * 1024 * 1024

pub record ChatFolder : Type 0 where
  pub id : String
  pub name : String
  pub description : String
  pub created_at : ℕ
  pub updated_at : ℕ

pub record ChatConversation : Type 0 where
  pub id : String
  pub folder_id : Option String
  pub title : Text
  pub model : String
  pub created_at : ℕ
  pub updated_at : ℕ

pub record ChatMessage : Type 0 where
  pub id : String
  pub conversation_id : String
  pub role : ChatRole
  pub content : Text
  pub model : Option String
  pub error : Option String
  pub ttft_ms : Option ℕ
  pub duration_ms : Option ℕ
  pub usage : Option ChatUsage
  pub created_at : ℕ

-- A row of attachments, with its data.
pub record ChatAttachment : Type 0 where
  pub id : String
  pub message_id : String
  pub name : String
  pub mime : String
  pub bytes : ℕ
  pub data_bytes : List ℕ

pub record ChatStore : Type 0 where
  pub folders : Dict ChatFolder
  pub conversations : Dict ChatConversation
  pub messages : Dict ChatMessage
  pub attachments : Dict ChatAttachment

abbrev pub empty_store : ChatStore
empty_store = record { folders = []; conversations = []; messages = []; attachments = [] }

abbrev pub or_text : Option String → String → String
or_text none d = d
or_text (some s) d = s

unfoldable pub create_folder :
    ℕ → String → String → Option String → ChatStore → ChatStore × ChatFolder
create_folder now id name description s =
    let row : ChatFolder = record {
      id = id;
      name = name;
      description = or_text description "";
      created_at = now;
      updated_at = now;
    } in
    (record s { folders = put id row s.folders }, row)

abbrev pub has_value : Option String → Bool
has_value none = false
has_value (some v) = true

unfoldable pub update_folder :
    ℕ → String → Option String → Option String → ChatStore → ChatStore × Option ChatFolder
update_folder now id name description s = elim (get id s.folders) [
  | none ↦ (s, none)
  | some f ↦
      let changed : ChatFolder = record f {
        name = or_text name f.name;
        description = or_text description f.description;
        updated_at = now;
      } in
      if not (has_value name) && not (has_value description)
      then (s, some f)
      else (record s { folders = put id changed s.folders }, some changed)
]

-- A value changed under every key.
abbrev pub map_values {ℓ} : {V : Type ℓ} → (V → V) → Dict V → Dict V
map_values f m = map (λ e. (e.0, f e.1)) m

abbrev pub names : Option String → String → Bool
names none id = false
names (some f) id = f === id

-- ON DELETE SET NULL
abbrev pub detach : String → ChatConversation → ChatConversation
detach id c = if names c.folder_id id then record c { folder_id = none } else c

unfoldable pub delete_folder : String → ChatStore → ChatStore × Bool
delete_folder id s = elim (get id s.folders) [
  | none ↦ (s, false)
  | some f ↦ (
    record s {
      folders = remove id s.folders;
      conversations = map_values (detach id) s.conversations;
    },
    true,
  )
]

abbrev pub has {ℓ} : {V : Type ℓ} → String → Dict V → Bool
has k m = elim (get k m) [ none ↦ false | some v ↦ true ]

-- The reference to a folder that the database checks.
abbrev pub folder_ok : Option String → ChatStore → Bool
folder_ok none s = true
folder_ok (some f) s = has f s.folders

abbrev pub title_or : Option Text → Text → Text
title_or none d = d
title_or (some t) d = t

-- `none` where the database refuses the reference.
unfoldable pub create_conversation :
    ℕ
    → String
    → Option Text
    → Option String
    → String
    → ChatStore
    → Option (ChatStore × ChatConversation)
create_conversation now id title folder model s =
    let row : ChatConversation = record {
      id = id;
      folder_id = folder;
      title = title_or title (codes "New chat");
      model = model;
      created_at = now;
      updated_at = now;
    } in
    if folder_ok folder s
    then some (record s { conversations = put id row s.conversations }, row)
    else none

-- The patch of a conversation; the inner `none` of `folder` sets the column to NULL.
pub record ConversationPatch : Type 0 where
  pub title : Option Text
  pub folder : Option (Option String)
  pub model : Option String

abbrev pub is_empty_patch : ConversationPatch → Bool
is_empty_patch p =
    elim p.title [ none ↦ true | some t ↦ false ]
    && elim p.folder [ none ↦ true | some t ↦ false ]
    && not (has_value p.model)

abbrev pub folder_or : Option (Option String) → Option String → Option String
folder_or none old = old
folder_or (some new) old = new

unfoldable pub update_conversation :
    ℕ → String → ConversationPatch → ChatStore → Option (ChatStore × Option ChatConversation)
update_conversation now id p s = elim (get id s.conversations) [
  | none ↦ some (s, none)
  | some c ↦
      let changed : ChatConversation = record c {
        title = title_or p.title c.title;
        folder_id = folder_or p.folder c.folder_id;
        model = or_text p.model c.model;
        updated_at = now;
      } in
      if is_empty_patch p
      then some (s, some c)
      else (if folder_ok (folder_or p.folder none) s
          then some (record s { conversations = put id changed s.conversations }, some changed)
          else none)
]

-- The message is of the conversation.
abbrev pub is_of : String → Option ChatMessage → Bool
is_of id none = false
is_of id (some m) = m.conversation_id === id

-- ON DELETE CASCADE, from the conversation to its messages and on to their attachments.
unfoldable pub delete_conversation : String → ChatStore → ChatStore × Bool
delete_conversation id s = elim (get id s.conversations) [
  | none ↦ (s, false)
  | some c ↦ (
    record s {
      conversations = remove id s.conversations;
      messages = keep (λ m. not (is_of id (some m))) s.messages;
      attachments = keep (λ a. not (is_of id (get a.message_id s.messages))) s.attachments;
    },
    true,
  )
]

-- The argument of `appendMessage`, whose optional fields are null where they are absent.
pub record MessageInput : Type 0 where
  pub conversation_id : String
  pub role : ChatRole
  pub content : Text
  pub model : Option String
  pub error : Option String
  pub ttft_ms : Option ℕ
  pub duration_ms : Option ℕ
  pub usage : Option ChatUsage

unfoldable pub append_message :
    ℕ → String → MessageInput → ChatStore → ChatStore × Option ChatMessage
append_message now id input s = elim (get input.conversation_id s.conversations) [
  | none ↦ (s, none)
  | some c ↦
      let row : ChatMessage = record {
        id = id;
        conversation_id = input.conversation_id;
        role = input.role;
        content = input.content;
        model = input.model;
        error = input.error;
        ttft_ms = input.ttft_ms;
        duration_ms = input.duration_ms;
        usage = input.usage;
        created_at = now;
      } in
      (
        record s {
          messages = put id row s.messages;
          conversations = put input.conversation_id (record c { updated_at = now }) s.conversations;
        },
        some row,
      )
]

pub data AttachmentResult : Type 0 where
  stored : ChatAttachment → AttachmentResult
  too_large unknown_message : AttachmentResult

unfoldable pub add_attachment :
    String → String → String → String → List ℕ → ChatStore → ChatStore × AttachmentResult
add_attachment id message_id name mime data_bytes s = elim (get message_id s.messages) [
  | none ↦ (s, unknown_message)
  | some m ↦
      let row : ChatAttachment = record {
        id = id;
        message_id = message_id;
        name = name;
        mime = mime;
        bytes = length data_bytes;
        data_bytes = data_bytes;
      } in
      if ltb max_attachment_bytes (length data_bytes)
      then (s, too_large)
      else (record s { attachments = put id row s.attachments }, stored row)
]

-- The counts in the lists of folders and of conversations.
abbrev pub conversation_count : String → ChatStore → ℕ
conversation_count id s = length (select (λ c. names c.folder_id id) (values s.conversations))

abbrev pub message_count : String → ChatStore → ℕ
message_count id s = length (select (λ m. is_of id (some m)) (values s.messages))
