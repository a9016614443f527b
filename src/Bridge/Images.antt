-- ===== src/Bridge/Images.antt =====
-- internal/proxy/codex_images.go: an images request as a Responses body, and the images of its stream.
pub mod Once
use openllms.Prelude.{
  has, ℕ, List, [], ◌∷◌, ◌++◌, Option, none, some, Bool, true, false, ◌&&◌, ◌||◌, not,
  if◌then◌else◌, Text, lit, text_eq, is_empty, to_lower, trim_space, has_prefix,
}
use openllms.Prelude.Int.{ℤ, pos, ltb_ℤ}
use openllms.Oauth.{Fallible, ok, error}
use openllms.Config.{
  Any, Fields, str, bool, obj, arr, get, get_str, put, fields, as_obj, as_items, objects, items_of,
}
use openllms.Bridge.Merge.{image_generation_b64}
use openllms.Bridge.Stream.{Event}
use openllms.Bridge.Tools.{codex_image_generation_tool, typed}

-- The decoded images request.
pub record ImagesRequest : Type 0 where
  pub model : Text
  pub prompt : Text
  pub size : Text
  pub quality : Text
  pub background : Text
  pub n : ℤ

abbrev images_instructions : Text
images_instructions =
    lit
      "Use the image_generation tool to generate exactly one image for the user request. Do not use any other tool."

-- `imagesRequestCount`.
unfoldable pub images_request_count : ℤ → ℤ
images_request_count n = if ltb_ℤ n (pos 1) then pos 1 else if ltb_ℤ (pos 4) n then pos 4 else n

abbrev is_failure : Text → Bool
is_failure typ = text_eq typ (lit "response.failed") || text_eq typ (lit "response.incomplete")

module _ {F : Type 0} where
  -- The tool and the reasoning model of `imagesToCodexResponses`.
  unfoldable pub images_tool : ImagesRequest → Fields F × Text
  images_tool r =
      let tool = codex_image_generation_tool r.size r.quality r.background in
      let m = trim_space r.model in
      if is_empty m
      then (tool, lit "gpt-5")
      else if has_prefix (to_lower m) (lit "gpt-image")
      then (put (lit "model") (str m) tool, lit "gpt-5")
      else (tool, m)

  abbrev user_message : Text → Any F
  user_message prompt = obj (
      fields (
        (lit "type", str (lit "message"))
        ∷ (lit "role", str (lit "user"))
        ∷ (
          lit "content",
          arr (
              items_of (
                obj (fields ((lit "type", str (lit "input_text")) ∷ (lit "text", str prompt) ∷ []))
                ∷ [])),
        )
        ∷ []))

  -- `imagesToCodexResponses`: the body and the reasoning model.
  unfoldable pub images_to_codex_responses : ImagesRequest → Fallible (Fields F × Text)
  images_to_codex_responses r =
      let prompt = trim_space r.prompt in
      let (tool, model) = images_tool r in
      if is_empty prompt
      then error (lit "codex images: prompt required")
      else ok (
        fields (
            (lit "model", str model)
            ∷ (lit "instructions", str images_instructions)
            ∷ (lit "input", arr (items_of (user_message prompt ∷ [])))
            ∷ (lit "tools", arr (items_of (obj tool ∷ [])))
            ∷ (lit "tool_choice", typed (lit "image_generation"))
            ∷ (lit "store", bool false)
            ∷ (lit "stream", bool true)
            ∷ []),
        model,
      )

  -- The image of an item, where it has one.
  unfoldable pub image_of_item : Fields F → List Text
  image_of_item item = let b64 = image_generation_b64 item in if is_empty b64 then [] else b64 ∷ []

  unfoldable pub images_of_items : List (Fields F) → List Text
  images_of_items [] = []
  images_of_items (item ∷ items) = image_of_item item ++ images_of_items items

  abbrev images_in : Option (Fields F) → List Text
  images_in none = []
  images_in (some item) = image_of_item item

  abbrev images_in_response : Option (Fields F) → List Text
  images_in_response none = []
  images_in_response (some resp) = images_of_items (objects (as_items (get (lit "output") resp)))

  -- The images that an event adds.
  unfoldable pub images_of_event : Event F → List Text
  images_of_event (typ, o) =
      if is_failure typ
      then []
      else if text_eq typ (lit "response.completed")
      then images_in_response (as_obj (get (lit "response") o))
      else images_in (as_obj (get (lit "item") o))

  abbrev message_in : Option (Fields F) → Text → Text
  message_in none last = last
  message_in (some e) last =
      let msg = get_str (lit "message") e in if is_empty msg then last else msg

  abbrev error_in : Option (Fields F) → Text → Text
  error_in none last = last
  error_in (some resp) last = message_in (as_obj (get (lit "error") resp)) last

  -- The last error behind an event.
  unfoldable pub error_of_event : Event F → Text → Text
  error_of_event (typ, o) last =
      if is_failure typ then error_in (as_obj (get (lit "response") o)) last else last

  -- The handler of `aggregateCodexImagesSSE` over the events.
  unfoldable pub collect_images : List (Event F) → List Text → Text → List Text × Text
  collect_images [] b64s last = (b64s, last)
  collect_images (e ∷ es) b64s last =
      collect_images es (b64s ++ images_of_event e) (error_of_event e last)

-- The loop that drops what was seen before.
unfoldable pub unseen : List Text → List Text → List Text
unseen seen [] = []
unseen seen (b ∷ bs) = if has b seen then unseen seen bs else b ∷ unseen (b ∷ seen) bs

abbrev pub images_or_error : List Text → Text → Fallible (List Text)
images_or_error [] last =
    if is_empty last
    then error (lit "codex images: no image_generation_call result")
    else error (lit "codex images: " ++ last)
images_or_error (b ∷ bs) last = ok (unseen [] (b ∷ bs))

-- `aggregateCodexImagesSSE` of a stream that is read to its end: the `b64_json` of each entry of `data`.
unfoldable pub aggregate_images : {F : Type 0} → List (Event F) → Fallible (List Text)
aggregate_images events =
    let (b64s, last) = collect_images events [] [] in images_or_error b64s last
