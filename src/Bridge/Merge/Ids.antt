-- ===== src/Bridge/Merge/Ids.antt =====
-- Where an entry stands in the merged tool calls, and that it stays there.
use openllms.Prelude.{
  ℕ, zero, suc, ◌<◌, List, [], ◌∷◌, inl, inr, ◌≡◌, refl, some, true, false, Text, text_eq_refl,
  eq-text_eq, length, get_elem?, arith, Bool-cases,
}
use openllms.Config.{Fields}
use openllms.Bridge.Merge.{id_of, same_call, merge_tool_call, position_of, tool_call_stream_index}

module _ {F : Type 0} where
  -- Position `i` of the calls has this id.
  abbrev pub HasId : List (Fields F) → ℕ → Text → Type 0
  HasId calls i id = (e : Fields F) × (get_elem? calls i ≡ some e) × (id_of e ≡ id)

  -- A merge moves no entry and keeps every id in its place.
  pub merge_tool_call-HasId :
      (calls : List (Fields F)) (tc : Fields F) (i : ℕ) (id : Text)
      → HasId calls i id
      → HasId (merge_tool_call calls tc) i id
  unfolding merge_tool_call
  merge_tool_call-HasId [] tc i id (e, p, q) = ground arith
  merge_tool_call-HasId (c ∷ calls) tc zero id (e, p, q) = elim (Bool-cases (same_call tc c)) [
    | inl s ↦ rw s (tc, refl, ground (arith, s, eq-text_eq (id_of c) (id_of tc)))
    | inr s ↦ rw s (e, p, q)
  ]
  merge_tool_call-HasId (c ∷ calls) tc (suc i) id (e, p, q) = elim (Bool-cases (same_call tc c)) [
    | inl s ↦ rw s (e, p, q)
    | inr s ↦ rw s (merge_tool_call-HasId calls tc i id (e, p, q))
  ]

  length-merge_tool_call_pos :
      (calls : List (Fields F)) (tc : Fields F) → 0 < length (merge_tool_call calls tc)
  unfolding merge_tool_call
  length-merge_tool_call_pos [] tc = omega arith
  length-merge_tool_call_pos (c ∷ calls) tc = ground arith

  -- One entry in front that is not the call's moves its index by one.
  index-cons :
      (calls : List (Fields F)) (tc c : Fields F)
      → same_call tc c ≡ false
      → 0 < length calls
      → tool_call_stream_index (c ∷ calls) tc ≡ suc (tool_call_stream_index calls tc)
  unfolding tool_call_stream_index position_of
  index-cons calls tc c h n = ground (arith, h)

  index-alone : (tc : Fields F) → tool_call_stream_index (tc ∷ []) tc ≡ 0
  unfolding tool_call_stream_index position_of
  index-alone tc = ground arith

  index-head :
      (c tc : Fields F) (rest : List (Fields F))
      → same_call tc c ≡ true
      → tool_call_stream_index (tc ∷ rest) tc ≡ 0
  unfolding tool_call_stream_index position_of
  index-head c tc rest h = ground (arith, h, text_eq_refl (id_of tc))

  -- The stream index of a call behind its merge is the place of its id.
  pub stream_index-HasId :
      (calls : List (Fields F)) (tc : Fields F)
      → HasId
          (merge_tool_call calls tc)
          (tool_call_stream_index (merge_tool_call calls tc) tc)
          (id_of tc)
  unfolding merge_tool_call
  stream_index-HasId [] tc = rw (index-alone tc) (tc, refl, refl)
  stream_index-HasId (c ∷ calls) tc = elim (Bool-cases (same_call tc c)) [
    | inl s ↦ rw (s, index-head c tc calls s) (tc, refl, refl)
    | inr s ↦
        let later = merge_tool_call calls tc in
        rw (s, index-cons later tc c s (length-merge_tool_call_pos calls tc))
          (stream_index-HasId calls tc)
  ]
