-- ===== src/Bridge/Content.antt =====
-- internal/proxy/chat_content.go, and `flattenChatContent` of codex_bridge.go: the content of a chat
-- message. The cases of `Content`, `Part` and `ImageUrl` are what the calls of json.Unmarshal on a
-- json.RawMessage return.
use openllms.Prelude.{
  ℕ, List, [], ◌∷◌, ◌++◌, map, Option, none, some, Bool, false, ◌||◌, ◌==◌, not, if◌then◌else◌,
  Text, lit, text_eq, is_empty, to_lower, trim_space, has_prefix, drop,
}

-- An `image_url`: missing or of another shape, a text, an object with a URL and a detail.
pub data ImageUrl : Type 0 where
  no_url : ImageUrl
  plain : Text → ImageUrl
  nested : Text → Text → ImageUrl

-- A part of a content array, with its type, its text and its image.
pub record Part : Type 0 where
  pub typ : Text
  pub text : Text
  pub image : ImageUrl

-- A content: missing or null, a text, an array (a part that does not decode is `none`), or another value
-- with its raw text.
pub data Content : Type 0 where
  missing : Content
  plain_text : Text → Content
  parts : List (Option Part) → Content
  other : Text → Content

-- `chatImageRef`.
pub record ImageRef : Type 0 where
  pub url : Text
  pub detail : Text

-- `parseChatImageURLPart`.
unfoldable pub parse_image_url : ImageUrl → Option ImageRef
parse_image_url no_url = none
parse_image_url (plain url) =
    if is_empty (trim_space url) then none else some (record { url = trim_space url; detail = [] })
parse_image_url (nested url detail) =
    if is_empty (trim_space url)
    then none
    else some (record { url = trim_space url; detail = trim_space detail })

-- The kind of a part: a text, an image, or one that is skipped.
abbrev is_text_type : Text → Bool
is_text_type t =
    text_eq t (lit "text")
    || text_eq t (lit "input_text")
    || text_eq t (lit "output_text")
    || is_empty t

abbrev cons_some : Option ImageRef → List ImageRef → List ImageRef
cons_some none images = images
cons_some (some img) images = img ∷ images

-- The loop over the parts.
unfoldable pub walk_parts : List (Option Part) → List Text × List ImageRef
walk_parts [] = ([], [])
walk_parts (none ∷ ps) = walk_parts ps
walk_parts (some p ∷ ps) =
    let (texts, images) = walk_parts ps in
    let typ = to_lower (trim_space p.typ) in
    if is_text_type typ
    then (if is_empty p.text then (texts, images) else (p.text ∷ texts, images))
    else if text_eq typ (lit "image_url")
    then (texts, cons_some (parse_image_url p.image) images)
    else (texts, images)

-- `parseChatContentParts`.
unfoldable pub parse_chat_content_parts : Content → List Text × List ImageRef
parse_chat_content_parts missing = ([], [])
parse_chat_content_parts (plain_text s) = if is_empty s then ([], []) else (s ∷ [], [])
parse_chat_content_parts (parts ps) = walk_parts ps
parse_chat_content_parts (other raw) =
    let t = trim_space raw in
    if is_empty t || text_eq t (lit "null") then ([], []) else (t ∷ [], [])

-- `strings.Join(texts, "")`.
unfoldable pub join : List Text → Text
join [] = []
join (t ∷ ts) = t ++ join ts

-- `flattenChatContent`.
unfoldable pub flatten_chat_content : Content → Text
flatten_chat_content c = join (parse_chat_content_parts c).0

-- A part of a Responses message.
pub data CodexPart : Type 0 where
  text_part : Text → Text → CodexPart
  input_image : Text → Text → CodexPart

abbrev image_part : ImageRef → CodexPart
image_part img = input_image img.url img.detail

-- `chatContentToCodexParts`; a text part carries its type.
unfoldable pub codex_parts : Content → Bool → List CodexPart
codex_parts c for_assistant =
    let (texts, images) = parse_chat_content_parts c in
    if for_assistant
    then map (text_part (lit "output_text")) texts
    else map (text_part (lit "input_text")) texts ++ map image_part images

-- The text in front of the first `c` and the text behind it.
unfoldable pub split_at : ℕ → Text → Option (Text × Text)
split_at c [] = none
split_at c (d ∷ s) =
    let rest = split_at c s in
    if d == c
    then some ([], s)
    else elim rest [ none ↦ none | some (left, right) ↦ some (d ∷ left, right) ]

-- `strings.Split(meta, ";")`, as the first piece and the others.
unfoldable pub split_semicolons : Text → Text × List Text
split_semicolons [] = ([], [])
split_semicolons (c ∷ s) =
    let (first, others) = split_semicolons s in
    if c == b';' then ([], first ∷ others) else (c ∷ first, others)

unfoldable pub names_base64 : List Text → Bool
names_base64 [] = false
names_base64 (p ∷ ps) = text_eq p (lit "base64") || names_base64 ps

abbrev data_of : Option (Text × Text) → Option (Text × Text)
data_of none = none
data_of (some (meta, data_)) =
    let (media, others) = split_semicolons meta in
    if is_empty data_
    then none
    else if is_empty meta
    then some (lit "image/jpeg", data_)
    else if not (names_base64 others)
    then none
    else some (if is_empty media then lit "image/jpeg" else media, data_)

-- `parseDataURI`.
unfoldable pub parse_data_uri : Text → Option (Text × Text)
parse_data_uri uri =
    if has_prefix uri (lit "data:") then data_of (split_at b',' (drop 5 uri)) else none
