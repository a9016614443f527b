-- ===== src/Catalog/Parse.antt =====
-- internal/modelcatalog/catalog.go: the answers of the vendors, and the known lists behind a miss.
-- `Rows` stands for json.Unmarshal into the three structs that the code declares.
use openllms.Prelude.{
  has, List, [], ◌∷◌, Option, none, some, Bool, true, false, ◌&&◌, ◌||◌, not, if◌then◌else◌, Text,
  lit, text_eq, is_empty, to_lower, trim_space, equal_fold,
}
use openllms.Oauth.{Fallible, ok, error}
use openllms.Catalog.{Model, looks_like_account_ref}

-- A row of the Codex backend.
pub record CodexRow : Type 0 where
  pub slug : Text
  pub id : Text
  pub supported_in_api : Option Bool
  pub visibility : Text

-- The decoded rows of a body: `data` as id and owner, `models` as ids, `models` of the Codex backend.
-- `none` is the error of json.Unmarshal.
pub record Rows : Type 0 where
  pub data_rows : Text → Option (List (Text × Text))
  pub model_rows : Text → Option (List Text)
  pub codex_rows : Text → Option (List CodexRow)

abbrev pub model_of : Text → Text → Model
model_of id owner = record { id = id; owned_by = owner }

unfoldable pub data_models : Text → List (Text × Text) → List Model
data_models vendor [] = []
data_models vendor ((id, owner) ∷ rows) =
    let rest = data_models vendor rows in
    if is_empty id || looks_like_account_ref id
    then rest
    else model_of id (if is_empty owner then to_lower vendor else owner) ∷ rest

unfoldable pub alt_models : List Text → List Model
alt_models [] = []
alt_models (id ∷ rows) =
    let rest = alt_models rows in
    if is_empty id || looks_like_account_ref id then rest else model_of id (lit "anthropic") ∷ rest

abbrev data_part : Text → Option (List (Text × Text)) → List Model
data_part vendor none = []
data_part vendor (some rows) = data_models vendor rows

abbrev alt_part : Option (List Text) → Fallible (List Model)
alt_part none = error (lit "unparseable_models")
alt_part (some rows) = elim (alt_models rows) [
  | [] ↦ error (lit "unparseable_models")
  | m ∷ ms ↦ ok (m ∷ ms)
]

-- A candidate (`cand`).
pub record Cand : Type 0 where
  pub id : Text
  pub supported_in_api : Bool

unfoldable pub row_id : CodexRow → Text
row_id row = let slug = trim_space row.slug in if is_empty slug then trim_space row.id else slug

-- A row that the loop skips.
unfoldable pub skipped_row : CodexRow → Bool
skipped_row row =
    let id = row_id row in
    is_empty id
    || looks_like_account_ref id
    || text_eq (to_lower (trim_space row.visibility)) (lit "hidden")

abbrev supported_or_true : Option Bool → Bool
supported_or_true none = true
supported_or_true (some b) = b

abbrev flagged : Option Bool → Bool
flagged none = false
flagged (some _) = true

-- The candidates of the rows.
unfoldable pub candidates : List CodexRow → List Cand
candidates [] = []
candidates (row ∷ rows) =
    let rest = candidates rows in
    if skipped_row row
    then rest
    else record { id = row_id row; supported_in_api = supported_or_true row.supported_in_api }
      ∷ rest

-- `anySupportedFlag`.
unfoldable pub any_supported_flag : List CodexRow → Bool
any_supported_flag [] = false
any_supported_flag (row ∷ rows) =
    not (skipped_row row) && flagged row.supported_in_api || any_supported_flag rows

-- The first loop over the candidates, with the ids that were seen.
unfoldable pub supported_models : Bool → List Text → List Cand → List Model
supported_models any_flag seen [] = []
supported_models any_flag seen (c ∷ cs) =
    if any_flag && not c.supported_in_api
    then supported_models any_flag seen cs
    else if has c.id seen
    then supported_models any_flag seen cs
    else model_of c.id (lit "openai") ∷ supported_models any_flag (c.id ∷ seen) cs

abbrev pub or_empty_error : List Model → Fallible (List Model)
or_empty_error [] = error (lit "empty_codex_models")
or_empty_error (m ∷ ms) = ok (m ∷ ms)

-- The second loop, where the first found nothing, and the last test.
abbrev pub or_all_models : List Cand → List Model → Fallible (List Model)
or_all_models cs (m ∷ ms) = ok (m ∷ ms)
or_all_models cs [] = or_empty_error (supported_models false [] cs)

abbrev pub models_of_candidates : Bool → List Cand → Fallible (List Model)
models_of_candidates any_flag [] = error (lit "empty_codex_models")
models_of_candidates any_flag (c ∷ cs) =
    or_all_models (c ∷ cs) (supported_models any_flag [] (c ∷ cs))

-- The models of the decoded rows of the Codex backend.
unfoldable pub codex_models : List CodexRow → Fallible (List Model)
codex_models rows = models_of_candidates (any_supported_flag rows) (candidates rows)

module _ (json : Rows) where
  open json use {data_rows, model_rows, codex_rows}

  -- `parseModelsJSON`.
  unfoldable pub parse_models_json : Text → Text → Fallible (List Model)
  parse_models_json b vendor = elim (data_part vendor (data_rows b)) [
    | m ∷ ms ↦ ok (m ∷ ms)
    | [] ↦ alt_part (model_rows b)
  ]

  -- `parseCodexModelsJSON`.
  unfoldable pub parse_codex_models_json : Text → Fallible (List Model)
  parse_codex_models_json b = elim (codex_rows b) [
    | none ↦ error (lit "unparseable_codex_models")
    | some rows ↦ codex_models rows
  ]

-- `fallbackModels`.
unfoldable pub fallback_models : Text → Text → List Model
fallback_models vendor auth_type =
    let v = to_lower vendor in
    let oauth = equal_fold auth_type (lit "oauth") in
    if oauth && (text_eq v (lit "codex") || text_eq v (lit "openai"))
    then model_of (lit "gpt-5.5") (lit "openai")
      ∷ model_of (lit "gpt-5.4") (lit "openai")
      ∷ model_of (lit "gpt-5.4-mini") (lit "openai")
      ∷ []
    else if oauth && (text_eq v (lit "claude") || text_eq v (lit "anthropic"))
    then model_of (lit "claude-sonnet-4-5") (lit "anthropic")
      ∷ model_of (lit "claude-opus-4-5") (lit "anthropic")
      ∷ model_of (lit "claude-haiku-4-5") (lit "anthropic")
      ∷ []
    else []
