-- ===== src/Chat/Store/Titles.antt =====
-- server/src/chat/store.ts: the title of a conversation that is derived from its first message.
use dgx_control_center.Prelude.{
  ◌++◌, is_space, if◌then◌else◌, ◌≤◌, ◌<◌, inl, inr, [], ◌∷◌, arith, length, length-append,
  length-take, take, codes, ltb, trim, Bool-cases,
}
use dgx_control_center.Chat.Store.{Text}

-- content.replace(/\s+/g, " ")
unfoldable pub collapse : Text → Text
collapse [] = []
collapse (c ∷ cs) =
    let rest = collapse cs in
    if is_space c
    then elim rest [ [] ↦ 32 ∷ [] | d ∷ ds ↦ if is_space d then d ∷ ds else 32 ∷ d ∷ ds ]
    else c ∷ rest

-- The title of a collapsed and trimmed content.
unfoldable pub title_of : Text → Text
title_of [] = codes "New chat"
title_of (c ∷ cs) = if ltb 60 (length (c ∷ cs)) then take 57 (c ∷ cs) ++ codes "…" else c ∷ cs

abbrev pub derive_title : Text → Text
derive_title content = title_of (trim (collapse content))

title_of-length : (t : Text) → (0 < length (title_of t)) × (length (title_of t) ≤ 60)
unfolding title_of
title_of-length [] = (omega arith, omega arith)
title_of-length (c ∷ cs) = elim (Bool-cases (ltb 60 (length (c ∷ cs)))) [
  | inl long ↦
      let cut = length-append (take 57 (c ∷ cs)) (codes "…") in
      let short = length-take 57 (c ∷ cs) in
      (ground (arith, cut, short), ground (arith, cut, short))
  | inr fits ↦ (ground arith, ground arith)
]

-- The title of every content has at least one and at most 60 characters.
pub derive_title-length :
    (content : Text) → (0 < length (derive_title content)) × (length (derive_title content) ≤ 60)
derive_title-length content = title_of-length (trim (collapse content))
