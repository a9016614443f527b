-- ===== src/Bridge/Codex/Content.antt =====
-- What a streaming client of a Responses stream reads, put together.
use openllms.Prelude.{
  List, [], ◌∷◌, ◌++◌, inl, inr, ◌≡◌, refl, ◌∙◌, sym, ap, Option, none, some, Bool, true, false,
  ◌&&◌, ◌||◌, not, if◌then◌else◌, Text, lit, text_eq, is_empty, arith, Bool-cases,
}
use mathlib.Core.List.{append_assoc, append-nil}
use openllms.Config.{Fields, get, get_str, as_obj}
use openllms.Number.{Float}
use openllms.Bridge.Stream.{
  Event, Chunk, content, tool_delta, hosted_event, last_chunk, done_mark, Writer, write_chunk,
}
use openllms.Bridge.Merge.{codex_hosted_tool_from_item}
use openllms.Bridge.Codex.{
  CodexState, ingest_output_item, announce, phase_of, complete, call_of, on_delta, on_item,
  write_call, codex_step, parse_codex,
}
use openllms.Bridge.Codex.Same.{complete-marked}

is_empty-append : (s t : Text) → is_empty (s ++ t) ≡ (is_empty s && is_empty t)
unfolding is_empty
is_empty-append [] t = refl
is_empty-append (c ∷ s) t = refl

module _ {F : Type 0} where
  -- The text of a chunk, and of what was written.
  abbrev pub text_in : Chunk F → Text
  text_in (content t) = t
  text_in (tool_delta i tc) = []
  text_in (hosted_event phase h) = []
  text_in (last_chunk finish usage meta) = []
  text_in done_mark = []

  unfoldable pub content_of : List (Chunk F) → Text
  content_of [] = []
  content_of (c ∷ cs) = text_in c ++ content_of cs

  -- The text that an event brings.
  unfoldable pub delta_of : Event F → Text
  delta_of (typ, o) =
      if text_eq typ (lit "response.output_text.delta") then get_str (lit "delta") o else []

  unfoldable pub deltas : List (Event F) → Text
  deltas [] = []
  deltas (e ∷ es) = delta_of e ++ deltas es

  pub content_of-append :
      (xs ys : List (Chunk F)) → content_of (xs ++ ys) ≡ content_of xs ++ content_of ys
  unfolding content_of
  content_of-append [] ys = refl
  content_of-append (c ∷ xs) ys = rw (content_of-append xs ys) (sym (append_assoc (text_in c) _ _))

  content_of-snoc :
      (xs : List (Chunk F)) (c : Chunk F) → content_of (xs ++ (c ∷ [])) ≡ content_of xs ++ text_in c
  unfolding content_of
  content_of-snoc xs c =
      rw (content_of-append xs (c ∷ [])) (ap (λ t. content_of xs ++ t) (append-nil (text_in c)))

  -- A write that succeeds puts its chunk behind the others; one that fails puts nothing.
  pub write_chunk-out :
      (w : Writer F) (c : Chunk F)
      → (write_chunk w c).1.out ≡ (if (write_chunk w c).0 then w.out ++ (c ∷ []) else w.out)
  unfolding write_chunk
  write_chunk-out w c = ground arith

  pub write_chunk-content :
      (w : Writer F) (c : Chunk F)
      → (write_chunk w c).0 ≡ true
      → content_of (write_chunk w c).1.out ≡ content_of w.out ++ text_in c
  write_chunk-content w c h = rw (write_chunk-out w c, h) (content_of-snoc w.out c)

  announce-content :
      (streaming : Bool) (item : Fields F) (ht : Option (Fields F)) (w : Writer F)
      → content_of (announce streaming item ht w).out ≡ content_of w.out
  unfolding announce
  announce-content false item ht w = refl
  announce-content true item none w = refl
  announce-content true item (some t) w =
      elim (Bool-cases (write_chunk w (hosted_event (phase_of item) t)).0) [
        | inl e ↦
            write_chunk-content w (hosted_event (phase_of item) t) e ∙ append-nil (content_of w.out)
        | inr e ↦ rw (write_chunk-out w (hosted_event (phase_of item) t), e) refl
      ]

  ingest_emitted :
      (item : Fields F) (st : CodexState F)
      → (ingest_output_item item st).content_emitted ≡ st.content_emitted
  unfolding ingest_output_item
  ingest_emitted item st = ground arith

module _ (fl : Float) where
  open fl use {F}

  -- What a step that writes a text adds, and what it remembers of it.
  abbrev pub Adds : Text → CodexState F × Writer F → CodexState F × Writer F → Type 0
  Adds t (st, w) (st', w') =
      (content_of w'.out ≡ content_of w.out ++ t)
      × (st'.content_emitted ≡ (st.content_emitted || not (is_empty t)))

  Adds-trans :
      (s t : Text) (a b c : CodexState F × Writer F) → Adds s a b → Adds t b c → Adds (s ++ t) a c
  Adds-trans s t (st, w) (st', w') c (p, q) (p', q') = (
    p' ∙ ap (λ x. x ++ t) p ∙ append_assoc (content_of w.out) s t,
    ground (arith, q, q', is_empty-append s t),
  )

  on_delta-Adds :
      (t : Text) (st : CodexState F) (w : Writer F)
      → (on_delta fl true t st w).0 ≡ true
      → Adds t (st, w) (on_delta fl true t st w).1
  unfolding on_delta is_empty
  on_delta-Adds [] st w h = (sym (append-nil (content_of w.out)), ground arith)
  on_delta-Adds (c ∷ t) st w h = (write_chunk-content w (content (c ∷ t)) h, ground arith)

  on_item-Adds :
      (item : Option (Fields F)) (st : CodexState F) (w : Writer F)
      → Adds [] (st, w) (on_item fl true item st w)
  unfolding on_item is_empty
  on_item-Adds none st w = (sym (append-nil (content_of w.out)), ground arith)
  on_item-Adds (some item) st w = (
    announce-content true item (codex_hosted_tool_from_item item) w
        ∙ sym (append-nil (content_of w.out)),
    ground (arith, ingest_emitted item st),
  )

  write_call-Adds :
      (tc : Option (Fields F)) (st : CodexState F) (w : Writer F)
      → (write_call fl true tc (st, w)).0 ≡ true
      → Adds [] (st, w) (write_call fl true tc (st, w)).1
  unfolding write_call is_empty
  write_call-Adds none st w h = (sym (append-nil (content_of w.out)), ground arith)
  write_call-Adds (some tc) st w h = (write_chunk-content w _ h, ground arith)

  complete_emitted :
      (resp : Option (Fields F)) (st : CodexState F)
      → (complete fl resp st).content_emitted ≡ st.content_emitted
  complete_emitted resp st =
      ap (λ s. s.content_emitted) (complete-marked fl resp st.content_emitted st)

  step-Adds :
      (e : Event F) (st : CodexState F) (w : Writer F)
      → (codex_step fl true e st w).0 ≡ true
      → Adds (delta_of e) (st, w) (codex_step fl true e st w).1
  unfolding codex_step delta_of is_empty
  step-Adds (typ, o) st w h =
      let item = as_obj (get (lit "item") o) in
      let resp = as_obj (get (lit "response") o) in
      let next = on_item fl true item st w in
      let added = on_item-Adds item st w in
      elim (Bool-cases (text_eq typ (lit "response.output_text.delta"))) [
        | inl e0 ↦ rw e0 (on_delta-Adds (get_str (lit "delta") o) st w (rw e0 at (h)))
        | inr e0 ↦ elim (Bool-cases (text_eq typ (lit "response.output_item.added"))) [
          | inl e1 ↦ rw (e0, e1) added
          | inr e1 ↦ elim (Bool-cases (text_eq typ (lit "response.output_item.done"))) [
            | inl e2 ↦
                let called =
                  write_call-Adds (call_of fl item) next.0 next.1 (rw (e0, e1, e2) at (h)) in
                rw (e0, e1, e2)
                  (Adds-trans [] [] (st, w) next (write_call fl true (call_of fl item) next).1 added
                    called)
            | inr e2 ↦
                elim (Bool-cases (
                  text_eq typ (lit "response.completed")
                  || text_eq typ (lit "response.incomplete"))) [
                    | inl e3 ↦
                        rw (e0, e1, e2, e3)
                          (
                            sym (append-nil (content_of w.out)),
                            ground (arith, complete_emitted resp st),
                          )
                    | inr e3 ↦ rw (e0, e1, e2, e3) added
                  ]
          ]
        ]
      ]

  pub parse-Adds :
      (events : List (Event F)) (st : CodexState F) (w : Writer F)
      → (parse_codex fl true events st w).0 ≡ true
      → Adds (deltas events) (st, w) (parse_codex fl true events st w).1
  unfolding parse_codex deltas is_empty
  parse-Adds [] st w h = (sym (append-nil (content_of w.out)), ground arith)
  parse-Adds (e ∷ events) st w h =
      let (ok, p) = codex_step fl true e st w in
      elim (Bool-cases ok) [
        | inl k ↦ rw k (
            Adds-trans (delta_of e) (deltas events) (st, w) p (parse_codex fl true events p.0 p.1).1
              (step-Adds e st w k) (parse-Adds events p.0 p.1 (rw k at (h))))
        | inr k ↦ absurd (ground (arith, h, k))
      ]
