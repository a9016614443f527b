-- ===== src/Bridge/Messages/Turns.antt =====
-- internal/proxy/anthropic_bridge.go: the turns of a Messages body that a chat becomes.
use openllms.Prelude.{
  List, [], ◌∷◌, ◌++◌, map, Option, none, some, Bool, true, false, ◌≡◌, refl, ap, ◌∙◌, sym, ◌&&◌,
  not, keep, ◌||◌, if◌then◌else◌, lit, text_eq, is_empty, to_lower, trim_space, has_prefix,
  Option-cases, Text, arith, inl, inr, Bool-cases,
}
use mathlib.Core.List.{append_assoc, append-nil}
use openllms.Config.{Any, obj, end}
use openllms.Bridge.Content.{
  ImageRef, parse_chat_content_parts, flatten_chat_content, parse_data_uri,
}
use openllms.Bridge.Messages.{
  ChatCall, text_block, tool_use, tool_result, anthropic_image_block, anthropic_blocks,
  text_and_tool_blocks, tool_use_blocks, ChatMessage, Block, Speaker, user, assistant, Turn,
  same_speaker, append_anthropic_message, turn_of, add_turn, turns_from,
}

eq-same_speaker : (r s : Speaker) → same_speaker r s ≡ true → r ≡ s
unfolding same_speaker
eq-same_speaker user user h = refl
eq-same_speaker assistant assistant h = refl
eq-same_speaker user assistant h = ground arith
eq-same_speaker assistant user h = ground arith

module _ {F : Type 0} where
  abbrev filled : List (Block F) → Bool
  filled [] = false
  filled (b ∷ bs) = true

  -- No turn is empty, and no two turns in a row have one speaker.
  unfoldable pub alternates : List (Turn F) → Bool
  alternates [] = true
  alternates ((r, bs) ∷ []) = filled bs
  alternates ((r, bs) ∷ (s, cs) ∷ turns) =
      filled bs && not (same_speaker r s) && alternates ((s, cs) ∷ turns)

  abbrev pub by : Speaker → List (Block F) → List (Speaker × Block F)
  by r bs = map (λ b. (r, b)) bs

  -- The blocks of the turns in order, each with its speaker.
  unfoldable pub spoken : List (Turn F) → List (Speaker × Block F)
  spoken [] = []
  spoken ((r, bs) ∷ turns) = by r bs ++ spoken turns

  by-append : (r : Speaker) (bs cs : List (Block F)) → by r (bs ++ cs) ≡ by r bs ++ by r cs
  by-append r [] cs = refl
  by-append r (b ∷ bs) cs = ap (λ rest. (r, b) ∷ rest) (by-append r bs cs)

  filled-append : (bs cs : List (Block F)) → filled bs ≡ true → filled (bs ++ cs) ≡ true
  filled-append [] cs h = ground arith
  filled-append (b ∷ bs) cs h = refl

  spoken-append_anthropic_message :
      (turns : List (Turn F)) (role : Speaker) (bs : List (Block F))
      → spoken (append_anthropic_message turns role bs) ≡ spoken turns ++ by role bs
  unfolding spoken append_anthropic_message
  spoken-append_anthropic_message turns role [] = sym (append-nil (spoken turns))
  spoken-append_anthropic_message [] role (b ∷ bs) = append-nil (by role (b ∷ bs))
  spoken-append_anthropic_message ((r, content) ∷ []) role (b ∷ bs) =
      elim (Bool-cases (same_speaker r role)) [
        | inl e ↦
            rw (e, eq-same_speaker r role e)
              (rw (append-nil (by role (content ++ (b ∷ bs))), append-nil (by role content))
                (by-append role content (b ∷ bs)))
        | inr e ↦ rw (e, append-nil (by role bs), append-nil (by r content)) refl
      ]
  spoken-append_anthropic_message ((r, content) ∷ u ∷ turns) role (b ∷ bs) =
      rw (spoken-append_anthropic_message (u ∷ turns) role (b ∷ bs))
        (sym (append_assoc (by r content) (spoken (u ∷ turns)) (by role (b ∷ bs))))

  alternates-append_anthropic_message :
      (turns : List (Turn F)) (role : Speaker) (bs : List (Block F))
      → alternates turns ≡ true
      → alternates (append_anthropic_message turns role bs) ≡ true
  unfolding alternates append_anthropic_message
  alternates-append_anthropic_message turns role [] h = h
  alternates-append_anthropic_message [] role (b ∷ bs) h = refl
  alternates-append_anthropic_message ((r, content) ∷ []) role (b ∷ bs) h =
      elim (Bool-cases (same_speaker r role)) [
        | inl e ↦ rw e (filled-append content (b ∷ bs) h)
        | inr e ↦ rw (e, h) (rw e refl)
      ]
  alternates-append_anthropic_message ((r, content) ∷ (s, cs) ∷ []) role (b ∷ bs) h =
      let more = filled-append cs (b ∷ bs) (ground arith) in ground (arith, more)
  alternates-append_anthropic_message ((r, content) ∷ (s, cs) ∷ t ∷ turns) role (b ∷ bs) h =
      let ih =
        alternates-append_anthropic_message ((s, cs) ∷ t ∷ turns) role (b ∷ bs) (ground arith) in
      ground (arith, ih)

  -- The filter of an assistant's blocks leaves the texts.
  image_dropped :
      (img : ImageRef) (bs : List (Block F))
      → text_and_tool_blocks (anthropic_image_block img ∷ bs) ≡ text_and_tool_blocks bs
  unfolding anthropic_image_block text_and_tool_blocks
  image_dropped img bs = elim (Bool-cases (has_prefix img.url (lit "data:"))) [
    | inr n ↦ rw n refl
    | inl y ↦ elim (Option-cases (parse_data_uri img.url)) [
      | inl e ↦ rw (y, e) refl
      | inr (parts, e) ↦ rw (y, e) refl
    ]
  ]

  images_dropped :
      (images : List ImageRef)
      → text_and_tool_blocks (map (anthropic_image_block {F = F}) images) ≡ []
  unfolding text_and_tool_blocks
  images_dropped [] = refl
  images_dropped (img ∷ images) =
      image_dropped img (map anthropic_image_block images) ∙ images_dropped images

  texts_kept :
      (texts : List Text) (images : List ImageRef)
      → text_and_tool_blocks {F = F} (map text_block texts ++ map anthropic_image_block images)
        ≡ map text_block texts
  unfolding text_and_tool_blocks
  texts_kept [] images = images_dropped images
  texts_kept (t ∷ texts) images = ap (λ bs. text_block t ∷ bs) (texts_kept texts images)

  module _ (decode : Text → Option (Any F)) where
    abbrev turn_blocks : Option (Turn F) → List (Speaker × Block F)
    turn_blocks none = []
    turn_blocks (some (role, bs)) = by role bs

    -- The calls that have a name, as tool uses.
    abbrev is_named : ChatCall → Bool
    is_named c = not (is_empty (trim_space c.name))

    abbrev as_tool_use : ChatCall → Block F
    as_tool_use c =
        let args = trim_space c.arguments in
        tool_use c.id (trim_space c.name)
          (if is_empty args then obj end else elim (decode args) [ none ↦ obj end | some v ↦ v ])

    -- What one message says: a tool's result is the user's; an assistant says its texts and its named calls,
    -- no images; a system or developer message says nothing here; and anyone else is the user, who says
    -- the texts and the images.
    unfoldable pub said_in : ChatMessage → List (Speaker × Block F)
    said_in m =
        let role = to_lower (trim_space m.role) in
        let (texts, images) = parse_chat_content_parts m.content in
        if text_eq role (lit "system") || text_eq role (lit "developer")
        then []
        else if text_eq role (lit "tool")
        then (user, tool_result (trim_space m.tool_call_id) (flatten_chat_content m.content)) ∷ []
        else if text_eq role (lit "assistant")
        then by assistant (map text_block texts)
          ++ by assistant (map as_tool_use (keep is_named m.tool_calls))
        else by user (map text_block texts) ++ by user (map anthropic_image_block images)

    unfoldable pub said_by : List ChatMessage → List (Speaker × Block F)
    said_by [] = []
    said_by (m ∷ ms) = said_in m ++ said_by ms

    tool_use_blocks-keep :
        (cs : List ChatCall) → tool_use_blocks decode cs ≡ map as_tool_use (keep is_named cs)
    unfolding tool_use_blocks
    tool_use_blocks-keep [] = refl
    tool_use_blocks-keep (c ∷ cs) =
        let ih = tool_use_blocks-keep cs in
        elim (Bool-cases (is_empty (trim_space c.name))) [
          | inl e ↦ rw (e, ih) refl
          | inr e ↦ elim (Option-cases (decode (trim_space c.arguments))) [
            | inl d ↦ rw (e, ih, d) refl
            | inr (v, d) ↦ rw (e, ih, d) refl
          ]
        ]

    turn_of-said_in : (m : ChatMessage) → turn_blocks (turn_of decode m) ≡ said_in m
    unfolding turn_of said_in anthropic_blocks
    turn_of-said_in m =
        let role = to_lower (trim_space m.role) in
        let (texts, images) = parse_chat_content_parts m.content in
        elim (Bool-cases (text_eq role (lit "system") || text_eq role (lit "developer"))) [
          | inl e ↦ rw e refl
          | inr e ↦ elim (Bool-cases (text_eq role (lit "tool"))) [
            | inl f ↦ rw (e, f) refl
            | inr f ↦ elim (Bool-cases (text_eq role (lit "assistant"))) [
              | inl g ↦
                  rw (e, f, g, texts_kept texts images, tool_use_blocks-keep m.tool_calls)
                    (by-append assistant (map text_block texts)
                      (map as_tool_use (keep is_named m.tool_calls)))
              | inr g ↦
                  rw (e, f, g)
                    (by-append user (map text_block texts) (map anthropic_image_block images))
            ]
          ]
        ]

    spoken-add_turn :
        (t : Option (Turn F)) (turns : List (Turn F))
        → spoken (add_turn decode t turns) ≡ spoken turns ++ turn_blocks t
    spoken-add_turn none turns = sym (append-nil (spoken turns))
    spoken-add_turn (some (role, bs)) turns = spoken-append_anthropic_message turns role bs

    alternates-add_turn :
        (t : Option (Turn F)) (turns : List (Turn F))
        → alternates turns ≡ true
        → alternates (add_turn decode t turns) ≡ true
    alternates-add_turn none turns h = h
    alternates-add_turn (some (role, bs)) turns h =
        alternates-append_anthropic_message turns role bs h

    spoken-turns_from :
        (ms : List ChatMessage) (turns : List (Turn F))
        → spoken (turns_from decode ms turns) ≡ spoken turns ++ said_by ms
    unfolding turns_from said_by
    spoken-turns_from [] turns = sym (append-nil (spoken turns))
    spoken-turns_from (m ∷ ms) turns =
        let t = turn_of decode m in
        spoken-turns_from ms (add_turn decode t turns)
        ∙ ap (λ xs. xs ++ said_by ms)
            (spoken-add_turn t turns ∙ ap (λ xs. spoken turns ++ xs) (turn_of-said_in m))
        ∙ append_assoc (spoken turns) (said_in m) (said_by ms)

    alternates-turns_from :
        (ms : List ChatMessage) (turns : List (Turn F))
        → alternates turns ≡ true
        → alternates (turns_from decode ms turns) ≡ true
    unfolding turns_from
    alternates-turns_from [] turns h = h
    alternates-turns_from (m ∷ ms) turns h =
        alternates-turns_from ms (add_turn decode (turn_of decode m) turns)
          (alternates-add_turn (turn_of decode m) turns h)

    -- The turns of a Messages body say, in the order of the messages: of a tool message its
    -- result, by the user; of an assistant its texts and then its calls that have a name, but no
    -- images; of a system or developer message nothing; and of any other message its texts and
    -- then its images, by the user. No turn is empty, and no two turns in a row have one speaker.
    pub turns_from-alternates :
        (ms : List ChatMessage)
        → (spoken (turns_from decode ms []) ≡ said_by ms)
          × (alternates (turns_from decode ms []) ≡ true)
    unfolding spoken alternates
    turns_from-alternates ms = (spoken-turns_from ms [], alternates-turns_from ms [] refl)
