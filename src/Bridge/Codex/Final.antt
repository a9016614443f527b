-- ===== src/Bridge/Codex/Final.antt =====
-- How a streamed answer ends, and that it is the answer that a waiting client gets.
use openllms.Prelude.{
  Option, none, some, List, [], ◌∷◌, ◌++◌, inl, inr, ◌≡◌, refl, ◌∙◌, ap, Bool, true, not,
  if◌then◌else◌, Text, is_empty, arith, Bool-cases,
}
use mathlib.Core.List.{append_assoc, append-nil}
use openllms.Prelude.Int.{ℤ, pos, ltb_ℤ, ◌+ℤ◌}
use openllms.Config.{Fields}
use openllms.Number.{Float, wrap64}
use openllms.Bridge.Stream.{
  BridgeOpts, Event, Chunk, content, last_chunk, done_mark, Writer, write_chunk,
}
use openllms.Bridge.Completion.{usage_of, usage_part, finish_of, llms_meta}
use openllms.Bridge.Codex.{
  CodexState, new_codex_state, parse_codex, backfill, write_two, codex_finale, stream_codex,
  aggregate_codex,
}
use openllms.Bridge.Codex.Same.{Alike, parse-Alike, marked}
use openllms.Bridge.Codex.Content.{
  content_of, deltas, write_chunk-out, write_chunk-content, parse-Adds,
}

is_empty-nil : (s : Text) → is_empty s ≡ true → s ≡ []
unfolding is_empty
is_empty-nil [] h = refl
is_empty-nil (c ∷ s) h = ground arith

-- Where the text that was streamed is `d`, and `t` is added unless there was any.
sent_law :
    (x d t t' : Text) (emitted : Bool)
    → x ≡ d
    → emitted ≡ not (is_empty d)
    → t ≡ t'
    → x ++ (if emitted then [] else t) ≡ (if is_empty d then t' else d)
unfolding is_empty
sent_law x [] t t' emitted e k u = rw (e, k) u
sent_law x (c ∷ d) t t' emitted e k u = rw (e, k) (append-nil (c ∷ d))

module _ (fl : Float) where
  open fl use {F}

  -- The usage of the waiting client's body where its total is positive.
  abbrev pub counted_usage : ℤ → ℤ → Option (Fields F)
  counted_usage tin tout =
      if not (ltb_ℤ (pos 0) (wrap64 (tin +ℤ tout))) then none else some (usage_of tin tout)

  usage_part_lem : (tin tout : ℤ) → usage_part tin tout ≡ counted_usage tin tout
  usage_part_lem tin tout = ground arith

  -- The last two chunks of an answer with this state.
  abbrev pub ending : BridgeOpts → CodexState F → List (Chunk F)
  ending opts st =
      last_chunk (finish_of st.tool_calls) (counted_usage st.tin st.tout)
        (llms_meta opts st.hosted_tools)
      ∷ done_mark
      ∷ []

  ending_lem :
      (opts : BridgeOpts) (st : CodexState F) (out : List (Chunk F))
      → out
          ++ (last_chunk
                (finish_of st.tool_calls)
                (usage_part st.tin st.tout)
                (llms_meta opts st.hosted_tools)
              ∷ done_mark
              ∷ [])
        ≡ out ++ ending opts st
  ending_lem opts st out =
      ap
        (λ u.
          out
          ++ (last_chunk (finish_of st.tool_calls) u (llms_meta opts st.hosted_tools)
              ∷ done_mark
              ∷ []))
        (usage_part_lem st.tin st.tout)

  -- The text that was not streamed.
  abbrev unsent : CodexState F → Text
  unsent st = if st.content_emitted then [] else st.text

  backfill-adds :
      (st : CodexState F) (w : Writer F)
      → (backfill fl st w).0 ≡ true
      → (content_of (backfill fl st w).1.1.out ≡ content_of w.out ++ unsent st)
        × Alike fl (backfill fl st w).1.0 st
  unfolding backfill is_empty
  backfill-adds st w h = elim (Bool-cases st.content_emitted) [
    | inl e ↦ rw (e, append-nil (content_of w.out)) (refl, refl)
    | inr e ↦ elim (Bool-cases (is_empty st.text)) [
      | inl n ↦
          (rw (e, n, is_empty-nil st.text n, append-nil (content_of w.out)) refl, rw (e, n) refl)
      | inr n ↦ rw (e, n) (write_chunk-content w (content st.text) (rw (e, n) at (h)), refl)
    ]
  ]

  write_two-out :
      (c d : Chunk F) (w : Writer F)
      → (write_two fl c d w).0 ≡ true
      → (write_two fl c d w).1.out ≡ w.out ++ (c ∷ d ∷ [])
  write_two-out c d w h = elim (Bool-cases (write_chunk w c).0) [
    | inl e ↦
        let h' = rw e at (h) in
        rw (e, write_chunk-out (write_chunk w c).1 d, h', write_chunk-out w c, e)
          (append_assoc w.out (c ∷ []) (d ∷ []))
    | inr e ↦ absurd (ground (arith, h, e))
  ]

  -- What the finale leaves for the client.
  finale-out :
      (opts : BridgeOpts) (st : CodexState F) (w : Writer F)
      → (codex_finale fl opts st w).0 ≡ true
      → (before : List (Chunk F)) × ((codex_finale fl opts st w).1.1.out ≡ before ++ ending opts st)
        × (content_of before ≡ content_of w.out ++ unsent st)
        × Alike fl (codex_finale fl opts st w).1.0 st
  unfolding codex_finale
  finale-out opts st w h =
      let b = backfill fl st w in
      elim (Bool-cases b.0) [
        | inl e ↦
            let (added, alike) = backfill-adds st w e in
            let c =
              last_chunk (finish_of b.1.0.tool_calls) (usage_part b.1.0.tin b.1.0.tout)
                (llms_meta opts b.1.0.hosted_tools) in
            let wrote = write_two-out c done_mark b.1.1 (rw e at (h)) in
            (
              b.1.1.out,
              rw e (
                  wrote
                  ∙ ending_lem opts b.1.0 b.1.1.out
                  ∙ ap (λ s. b.1.1.out ++ ending opts s) alike),
              added,
              rw e alike,
            )
        | inr e ↦ absurd (ground (arith, h, e))
      ]

  -- The text of an answer: what was streamed, or the whole text where nothing was.
  pub streamed_text : List (Event F) → Text
  streamed_text events =
      if is_empty (deltas events) then (aggregate_codex fl events).text else deltas events

  -- Where no write fails, a streamed answer ends in the finish reason, the usage and the metadata
  -- of the state that a waiting client is answered from, the usage only where its total is
  -- positive; its pieces put together are the streamed deltas, or the waiting client's text where
  -- there were none; and the state it leaves is the waiting client's.
  pub stream_codex-aggregate :
      (opts : BridgeOpts) (events : List (Event F)) (w : Writer F)
      → w.out ≡ []
      → (stream_codex fl opts events w).0 ≡ true
      → let (st, w') = (stream_codex fl opts events w).1 in
        (before : List (Chunk F)) × (w'.out ≡ before ++ ending opts (aggregate_codex fl events))
        × (content_of before ≡ streamed_text events)
        × Alike fl st (aggregate_codex fl events)
  unfolding stream_codex aggregate_codex streamed_text content_of is_empty
  stream_codex-aggregate opts events w empty h =
      let p = parse_codex fl true events new_codex_state w in
      let agg = aggregate_codex fl events in
      elim (Bool-cases p.0) [
        | inl e ↦
            let alike =
              parse-Alike fl events true new_codex_state new_codex_state w
                (record { out = []; room = 0 }) refl e in
            let adds = parse-Adds fl events new_codex_state w e in
            let (before, outs, text, same) = finale-out opts p.1.0 p.1.1 (rw e at (h)) in
            (
              before,
              rw e (outs ∙ ap (λ s. before ++ ending opts s) alike),
              text
                  ∙ sent_law _ (deltas events) p.1.0.text agg.text p.1.0.content_emitted
                      (adds.0 ∙ ap (λ o. content_of o ++ deltas events) empty) adds.1
                      (ap (λ s. s.text) alike),
              rw e (same ∙ ap (marked _) alike),
            )
        | inr e ↦ absurd (ground (arith, h, e))
      ]
