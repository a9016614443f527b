-- ===== src/Proxy/Commit/Inspect.antt =====
-- internal/proxy/ttft.go: `inspectTTFT`, over `decode`, which is `json.Unmarshal` into a map[string]any
-- (`none` for an error).
use openllms.Prelude.{
  ℕ, List, [], ◌∷◌, ◌++◌, Option, none, some, Bool, true, false, ◌==◌, ◌||◌, ◌&&◌, not,
  if◌then◌else◌, Text, lit, text_eq, is_empty, trim_space, has_prefix, drop, ◌≡◌, ◌≢◌, refl,
  Bool-cases, inl, inr,
}
use openllms.Config.{Any, Items, Fields, get, get_str}
use openllms.Proxy.Commit.{Verdict, committed, error_frame, pending}

-- `strings.Split(s, "\n")`.
abbrev into_head : ℕ → List Text → List Text
into_head c [] = (c ∷ []) ∷ []
into_head c (l ∷ ls) = (c ∷ l) ∷ ls

unfoldable pub split_lines : Text → List Text
split_lines [] = [] ∷ []
split_lines (c ∷ s) = let rest = split_lines s in if c == b'\n' then [] ∷ rest else into_head c rest

into_head-append :
    (c : ℕ) (xs ys : List Text) → xs ≢ [] → into_head c (xs ++ ys) ≡ into_head c xs ++ ys
into_head-append c [] ys h = absurd (h refl)
into_head-append c (x ∷ xs) ys h = refl

split_lines-ne-nil : (s : Text) → split_lines s ≢ []
unfolding split_lines
split_lines-ne-nil [] = λ e. cc
split_lines-ne-nil (c ∷ s) = go (c == b'\n') (split_lines s)
  where
    go : (hit : Bool) (ls : List Text) → (if hit then [] ∷ ls else into_head c ls) ≢ []
    go true ls = λ e. cc
    go false [] = λ e. cc
    go false (l ∷ ls) = λ e. cc

split_lines-append : (s t : Text) → split_lines (s ++ (b'\n' ∷ t)) ≡ split_lines s ++ split_lines t
unfolding split_lines
split_lines-append [] t = refl
split_lines-append (c ∷ s) t = rw (split_lines-append s t) (elim (Bool-cases (c == b'\n')) [
  | inl e ↦ rw e
  | inr e ↦ rw e (into_head-append c (split_lines s) (split_lines t) (split_lines-ne-nil s))
])

module _ {F : Type 0} where
  -- `v, ok := x.(map[string]any)`, and the first element of `x.([]any)`.
  abbrev as_obj : Option (Any F) → Option (Fields F)
  as_obj (some (Any.obj fs)) = some fs
  as_obj _ = none

  abbrev first_item : Option (Any F) → Option (Any F)
  first_item (some (Any.arr (Items.cons v vs))) = some v
  first_item _ = none

  -- `raw[k] != nil`.
  abbrev is_set : Option (Any F) → Bool
  is_set none = false
  is_set (some Any.null) = false
  is_set (some v) = true

  -- The delta of an OpenAI chunk; `none` goes on to the next test.
  unfoldable pub delta_verdict : Option (Fields F) → Option Verdict
  delta_verdict none = none
  delta_verdict (some delta) =
      if not (is_empty (get_str (lit "content") delta)) || is_set (get (lit "tool_calls") delta)
      then some committed
      else if is_set (get (lit "role") delta)
      then some pending
      else none

  -- Its message and its finish reason.
  unfoldable pub finish_verdict : Fields F → Option Verdict
  finish_verdict ch =
      let content : Text = elim (as_obj (get (lit "message") ch)) [
        | none ↦ []
        | some msg ↦ get_str (lit "content") msg
      ] in
      let reason = get_str (lit "finish_reason") ch in
      if not (is_empty content) || not (is_empty reason) && not (text_eq reason (lit "null"))
      then some committed
      else none

  unfoldable pub choice_verdict : Option (Any F) → Option Verdict
  unfolding delta_verdict finish_verdict
  choice_verdict none = none
  choice_verdict (some (Any.obj ch)) = elim (delta_verdict (as_obj (get (lit "delta") ch))) [
    | some v ↦ some v
    | none ↦ finish_verdict ch
  ]
  choice_verdict (some v) = some pending

  unfoldable pub block_delta_verdict : Option (Fields F) → Verdict
  block_delta_verdict none = pending
  block_delta_verdict (some delta) =
      if not (is_empty (get_str (lit "text") delta))
        || is_set (get (lit "partial_json") delta)
        || is_set (get (lit "thinking") delta)
      then committed
      else pending

  -- The `switch` on the type of an Anthropic event.
  unfoldable pub event_verdict : Text → Fields F → Verdict
  unfolding block_delta_verdict
  event_verdict typ raw =
      if text_eq typ (lit "error")
      then error_frame
      else if text_eq typ (lit "content_block_delta")
      then block_delta_verdict (as_obj (get (lit "delta") raw))
      else if text_eq typ (lit "message_stop") || text_eq typ (lit "message_delta")
      then committed
      else pending

  unfoldable pub frame_verdict : Fields F → Verdict
  unfolding choice_verdict event_verdict
  frame_verdict raw =
      if is_set (get (lit "error") raw)
      then error_frame
      else elim (choice_verdict (first_item (get (lit "choices") raw))) [
        | some v ↦ v
        | none ↦ event_verdict (get_str (lit "type") raw) raw
      ]

  module _ (decode : Text → Option (Fields F)) where
    unfoldable pub payload_verdict : Text → Verdict
    unfolding frame_verdict
    payload_verdict payload =
        if text_eq payload (lit "[DONE]")
        then committed
        else if is_empty payload
        then pending
        else elim (decode payload) [ none ↦ pending | some raw ↦ frame_verdict raw ]

    -- One round of the loop: `pending` goes on with the next line.
    unfoldable pub line_verdict : Text → Verdict
    unfolding payload_verdict
    line_verdict raw_line =
        let line = trim_space raw_line in
        if has_prefix line (lit "data:")
        then payload_verdict (trim_space (drop 5 line))
        else pending

    abbrev pub or_next : Verdict → Verdict → Verdict
    or_next pending next = next
    or_next v next = v

    unfoldable pub lines_verdict : List Text → Verdict
    unfolding line_verdict
    lines_verdict [] = pending
    lines_verdict (line ∷ rest) = or_next (line_verdict line) (lines_verdict rest)

    -- `inspectTTFT`.
    unfoldable pub inspect_ttft : Text → Verdict
    unfolding lines_verdict split_lines
    inspect_ttft buf = lines_verdict (split_lines buf)

    or_next_assoc : (u v w : Verdict) → or_next (or_next u v) w ≡ or_next u (or_next v w)
    or_next_assoc pending v w = refl
    or_next_assoc committed v w = refl
    or_next_assoc error_frame v w = refl

    lines_verdict-append :
        (xs ys : List Text)
        → lines_verdict (xs ++ ys) ≡ or_next (lines_verdict xs) (lines_verdict ys)
    unfolding lines_verdict
    lines_verdict-append [] ys = refl
    lines_verdict-append (x ∷ xs) ys = rw (
      lines_verdict-append xs ys,
      or_next_assoc (line_verdict x) (lines_verdict xs) (lines_verdict ys),
    )

    -- What follows a line break changes the verdict of inspectTTFT only while it is open: once the
    -- bytes so far hold a token or an error frame, later bytes do not change that.
    pub inspect_ttft-append :
        (buf later : Text)
        → inspect_ttft (buf ++ (b'\n' ∷ later)) ≡ or_next (inspect_ttft buf) (inspect_ttft later)
    unfolding inspect_ttft
    inspect_ttft-append buf later =
        rw (split_lines-append buf later)
          (lines_verdict-append (split_lines buf) (split_lines later))
