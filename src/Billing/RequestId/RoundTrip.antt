-- ===== src/Billing/RequestId/RoundTrip.antt =====
-- The round trip of the request ids of internal/billing/requestid.go.
use openllms.Prelude.{
  ℕ, [], ◌∷◌, ◌++◌, Option, some, false, ◌==◌, ◌≡◌, refl, ◌⊎◌, inl, inr, Text, lit, arith,
  trim_space, trim_left, is_space, has_prefix, text_eq,
}
use mathlib.Core.List.{reverse, reverse-append, reverse-reverse}
use openllms.Account.{Uuid}
use openllms.Billing.Plans.{Plan, plan_starter, plan_pro, normalize_plan, valid_paid, canonical}
use openllms.Billing.RequestId.{
  cut, split_n, format_unifi_request_id, parse_unifi_request_id, with_plan, read_parts,
}

-- No letter of the text is a colon.
unfoldable pub NoColon : Text → Type 0
NoColon [] = Unit
NoColon (c ∷ s) = ((c == b':') ≡ false) × NoColon s

cut-append : (s rest : Text) → NoColon s → cut b':' (s ++ (b':' ∷ rest)) ≡ (s, some rest)
unfolding cut NoColon
cut-append [] rest h = refl
cut-append (c ∷ s) rest (h, hs) = ground (arith, cut-append s rest hs)

trim_left_solid : (s : Text) (c : ℕ) (r : Text) → is_space c ≡ false → s ≡ c ∷ r → trim_left s ≡ s
unfolding trim_left
trim_left_solid s c r h e = rw e (ground arith)

-- A text whose first and last letters are no space is kept by TrimSpace.
trim_space_solid :
    (s : Text) (c d : ℕ) (r t : Text)
    → is_space c ≡ false
    → is_space d ≡ false
    → s ≡ c ∷ r
    → reverse s ≡ d ∷ t
    → trim_space s ≡ s
unfolding trim_space
trim_space_solid s c d r t hc hd e k =
    rw (trim_left_solid s c r hc e, trim_left_solid (reverse s) d t hd k) (reverse-reverse s)

-- The request id of a paid plan, read in parts.
parts_of :
    (u plan : Text)
    → NoColon u
    → split_n (lit "llms:" ++ (u ++ (lit ":" ++ plan))) b':' 3 ≡ lit "llms" ∷ u ∷ plan ∷ []
unfolding split_n cut
parts_of u plan h = ground (arith, cut-append u plan h)

starter_kept :
    (u : Text)
    → trim_space (lit "llms:" ++ (u ++ lit ":starter")) ≡ lit "llms:" ++ (u ++ lit ":starter")
unfolding is_space
starter_kept u =
    trim_space_solid _ b'l' b'r' (lit "lms:" ++ (u ++ lit ":starter"))
      ((lit "etrats:" ++ reverse u) ++ lit ":smll") refl refl refl
      (rw (reverse-append (lit "llms:") (u ++ lit ":starter"), reverse-append u (lit ":starter"))
        refl)

pro_kept :
    (u : Text) → trim_space (lit "llms:" ++ (u ++ lit ":pro")) ≡ lit "llms:" ++ (u ++ lit ":pro")
unfolding is_space
pro_kept u =
    trim_space_solid _ b'l' b'o' (lit "lms:" ++ (u ++ lit ":pro"))
      ((lit "rp:" ++ reverse u) ++ lit ":smll") refl refl refl
      (rw (reverse-append (lit "llms:") (u ++ lit ":pro"), reverse-append u (lit ":pro")) refl)

module _ (uuid_string : Uuid → Text) (uuid_parse : Text → Option Uuid) where
  -- The request id of a project and of a paid plan is parsed to the two, where uuid.Parse reads
  -- what String writes, and String writes no colon.
  pub parse-format_unifi_request_id :
      (project : Uuid) (plan : Plan)
      → ((id : Uuid) → uuid_parse (uuid_string id) ≡ some id)
      → ((id : Uuid) → NoColon (uuid_string id))
      → (plan ≡ plan_starter) ⊎ (plan ≡ plan_pro)
      → parse_unifi_request_id uuid_string uuid_parse
          (format_unifi_request_id uuid_string uuid_parse project plan)
        ≡ some (project, plan)
  unfolding parse_unifi_request_id format_unifi_request_id read_parts with_plan normalize_plan
      valid_paid canonical has_prefix text_eq
  parse-format_unifi_request_id project plan reads clean (inl e) = rw e (
      rw
        (
          starter_kept (uuid_string project),
          parts_of (uuid_string project) plan_starter (clean project),
          reads project,
        )
        refl)
  parse-format_unifi_request_id project plan reads clean (inr e) = rw e (
      rw
        (
          pro_kept (uuid_string project),
          parts_of (uuid_string project) plan_pro (clean project),
          reads project,
        )
        refl)
