-- ===== src/Bridge/Codex/Same.antt =====
-- A streaming client and a waiting one get the same answer from a Responses stream.
use openllms.Prelude.{
  List, [], ◌∷◌, inl, inr, ◌≡◌, refl, Option, none, some, Bool, true, false, ◌||◌, Text, lit,
  text_eq, arith, Bool-cases, Option-cases,
}
use openllms.Config.{Fields, get, get_str, as_obj, as_items, objects}
use openllms.Number.{Float}
use openllms.Bridge.Stream.{Event, Writer}
use openllms.Bridge.Codex.{
  CodexState, ingest_output_item, ingest_all, parse_completed_output, complete, call_of, on_delta,
  on_item, write_call, codex_step, parse_codex,
}

-- The state with another mark of what was written.
abbrev pub marked : {F : Type 0} → Bool → CodexState F → CodexState F
marked b st = record st { content_emitted = b }

module _ {F : Type 0} where
  pub ingest_output_item-marked :
      (item : Fields F) (b : Bool) (st : CodexState F)
      → ingest_output_item item (marked b st) ≡ marked b (ingest_output_item item st)
  unfolding ingest_output_item
  ingest_output_item-marked item b st = ground arith

  ingest_all-marked :
      (items : List (Fields F)) (b : Bool) (st : CodexState F)
      → ingest_all items (marked b st) ≡ marked b (ingest_all items st)
  unfolding ingest_all
  ingest_all-marked [] b st = refl
  ingest_all-marked (item ∷ items) b st =
      rw (ingest_output_item-marked item b st)
        (ingest_all-marked items b (ingest_output_item item st))

module _ (fl : Float) where
  open fl use {F}

  parse_completed_output-marked :
      (resp : Fields F) (b : Bool) (st : CodexState F)
      → parse_completed_output resp (marked b st) ≡ marked b (parse_completed_output resp st)
  unfolding parse_completed_output
  parse_completed_output-marked resp b st =
      ground (arith, ingest_all-marked (objects (as_items (get (lit "output") resp))) b st)

  pub complete-marked :
      (resp : Option (Fields F)) (b : Bool) (st : CodexState F)
      → complete fl resp (marked b st) ≡ marked b (complete fl resp st)
  unfolding complete
  complete-marked none b st = refl
  complete-marked (some resp) b st = elim (Option-cases (as_obj (get (lit "usage") resp))) [
    | inl e ↦ rw e (parse_completed_output-marked resp b st)
    | inr (u, e) ↦ rw e (parse_completed_output-marked resp b _)
  ]

  on_item-marked :
      (streaming : Bool) (item : Option (Fields F)) (b : Bool) (st : CodexState F) (w w' : Writer F)
      → (on_item fl streaming item (marked b st) w).0 ≡ marked b (on_item fl false item st w').0
  unfolding on_item
  on_item-marked streaming none b st w w' = refl
  on_item-marked streaming (some item) b st w w' = ingest_output_item-marked item b st

  pub write_call-state :
      (streaming : Bool) (tc : Option (Fields F)) (p : CodexState F × Writer F)
      → (write_call fl streaming tc p).1.0 ≡ p.0
  unfolding write_call
  write_call-state false tc (st, w) = refl
  write_call-state true none (st, w) = refl
  write_call-state true (some tc) (st, w) = refl

  write_call-ok :
      (tc : Option (Fields F)) (p : CodexState F × Writer F) → (write_call fl false tc p).0 ≡ true
  unfolding write_call
  write_call-ok tc (st, w) = refl

  on_delta-marked :
      (streaming : Bool) (delta : Text) (b : Bool) (st : CodexState F) (w w' : Writer F)
      → let left = (on_delta fl streaming delta (marked b st) w).1.0 in
        left ≡ marked left.content_emitted (on_delta fl false delta st w').1.0
  unfolding on_delta
  on_delta-marked streaming delta b st w w' = ground arith

  -- A step's state is that of the waiting client's, up to the mark, whatever is written.
  step_same :
      (streaming : Bool) (e : Event F) (b : Bool) (st : CodexState F) (w w' : Writer F)
      → let left = (codex_step fl streaming e (marked b st) w).1.0 in
        left ≡ marked left.content_emitted (codex_step fl false e st w').1.0
  unfolding codex_step
  step_same streaming (typ, o) b st w w' =
      let item = as_obj (get (lit "item") o) in
      let resp = as_obj (get (lit "response") o) in
      let delta = get_str (lit "delta") o in
      elim (Bool-cases (text_eq typ (lit "response.output_text.delta"))) [
        | inl e0 ↦ rw e0 (on_delta-marked streaming delta b st w w')
        | inr e0 ↦ elim (Bool-cases (text_eq typ (lit "response.output_item.added"))) [
          | inl e1 ↦ rw (e0, e1, on_item-marked streaming item b st w w') refl
          | inr e1 ↦ elim (Bool-cases (text_eq typ (lit "response.output_item.done"))) [
            | inl e2 ↦
                let tc = call_of fl item in
                rw
                  (
                    e0,
                    e1,
                    e2,
                    write_call-state streaming tc (on_item fl streaming item (marked b st) w),
                    write_call-state false tc (on_item fl false item st w'),
                    on_item-marked streaming item b st w w',
                  )
                  refl
            | inr e2 ↦
                elim (Bool-cases (
                  text_eq typ (lit "response.completed")
                  || text_eq typ (lit "response.incomplete"))) [
                    | inl e3 ↦ rw (e0, e1, e2, e3, complete-marked resp b st) refl
                    | inr e3 ↦ rw (e0, e1, e2, e3, on_item-marked streaming item b st w w') refl
                  ]
          ]
        ]
      ]

  -- A client that waits meets no error.
  quiet_step-ok :
      (e : Event F) (st : CodexState F) (w : Writer F) → (codex_step fl false e st w).0 ≡ true
  unfolding codex_step on_delta
  quiet_step-ok (typ, o) st w =
      let item = as_obj (get (lit "item") o) in
      ground (arith, write_call-ok (call_of fl item) (on_item fl false item st w))

  -- Two states that differ in the mark at most.
  abbrev pub Alike : CodexState F → CodexState F → Type 0
  Alike l st = l ≡ marked l.content_emitted st

  step-Alike :
      (streaming : Bool) (e : Event F) (l st : CodexState F) (w w' : Writer F)
      → Alike l st
      → Alike (codex_step fl streaming e l w).1.0 (codex_step fl false e st w').1.0
  step-Alike streaming e l st w w' h = rw h (step_same streaming e l.content_emitted st w w')

  -- The parse's state is that of the waiting client's, as long as the writes succeed.
  pub parse-Alike :
      (events : List (Event F)) (streaming : Bool) (l st : CodexState F) (w w' : Writer F)
      → Alike l st
      → (parse_codex fl streaming events l w).0 ≡ true
      → Alike (parse_codex fl streaming events l w).1.0 (parse_codex fl false events st w').1.0
  unfolding parse_codex
  parse-Alike [] streaming l st w w' a h = a
  parse-Alike (e ∷ events) streaming l st w w' a h =
      let left = codex_step fl streaming e l w in
      let right = codex_step fl false e st w' in
      elim (Bool-cases left.0) [
        | inl ok ↦
            rw (ok, quiet_step-ok e st w')
              (parse-Alike events streaming left.1.0 right.1.0 left.1.1 right.1.1
                (step-Alike streaming e l st w w' a) (rw ok at (h)))
        | inr bad ↦ absurd (ground (arith, h, bad))
      ]
