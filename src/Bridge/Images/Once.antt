-- ===== src/Bridge/Images/Once.antt =====
-- internal/proxy/codex_images.go: the images of a stream, each once.
use openllms.Prelude.{
  has, distinct, text_eq_refl, eq-text_eq, List, [], ◌∷◌, ◌++◌, true, false, ◌≡◌, refl, ◌∙◌, sym,
  inl, inr, ◌&&◌, not, Text, text_eq, arith, Bool-cases,
}
use mathlib.Core.List.{append_assoc, append-nil}
use openllms.Oauth.{ok}
use openllms.Bridge.Stream.{Event}
use openllms.Bridge.Images.{
  images_of_event, collect_images, error_of_event, unseen, aggregate_images,
}

-- The images of all events of a stream, in order.
unfoldable pub images_of_events : {F : Type 0} → List (Event F) → List Text
images_of_events [] = []
images_of_events (e ∷ es) = images_of_event e ++ images_of_events es

collect_images-events :
    {F : Type 0} (es : List (Event F)) (b64s : List Text) (last : Text)
    → (collect_images es b64s last).0 ≡ b64s ++ images_of_events es
unfolding collect_images images_of_events
collect_images-events [] b64s last = sym (append-nil b64s)
collect_images-events (e ∷ es) b64s last =
    collect_images-events es (b64s ++ images_of_event e) (error_of_event e last)
    ∙ append_assoc b64s (images_of_event e) (images_of_events es)

has-unseen :
    (seen bs : List Text) (b : Text) → has b (unseen seen bs) ≡ has b bs && not (has b seen)
unfolding has unseen
has-unseen seen [] b = refl
has-unseen seen (x ∷ bs) b =
    let ih = has-unseen seen bs b in
    let ih' = has-unseen (x ∷ seen) bs b in
    elim (Bool-cases (has x seen)) [
      | inl h ↦ elim (Bool-cases (text_eq x b)) [
        | inl t ↦
            let h' : has b seen ≡ true = rw (eq-text_eq x b t) at (h) in
            rw h (ground (arith, ih, h'))
        | inr t ↦ rw h (ground (arith, ih))
      ]
      | inr h ↦ elim (Bool-cases (text_eq x b)) [
        | inl t ↦
            let h' : has b seen ≡ false = rw (eq-text_eq x b t) at (h) in rw h (ground (arith, h'))
        | inr t ↦ rw h (ground (arith, ih'))
      ]
    ]

has_self : (x : Text) (seen : List Text) → has x (x ∷ seen) ≡ true
unfolding has
has_self x seen = rw (text_eq_refl x) refl

distinct-unseen : (seen bs : List Text) → distinct (unseen seen bs) ≡ true
unfolding distinct unseen
distinct-unseen seen [] = refl
distinct-unseen seen (x ∷ bs) =
    let once = has-unseen (x ∷ seen) bs x in
    elim (Bool-cases (has x seen)) [
      | inl h ↦ rw h (distinct-unseen seen bs)
      | inr h ↦ rw h (rw (once, distinct-unseen (x ∷ seen) bs, has_self x seen) (ground arith))
    ]

has_none : (b : Text) → has b [] ≡ false
unfolding has
has_none b = refl

-- Where the events of a stream carry an image, the answer has each image once, and it has an image
-- exactly where an event carries it.
pub aggregate_images-distinct :
    {F : Type 0} (events : List (Event F)) (b : Text) (bs : List Text)
    → images_of_events events ≡ b ∷ bs
    → (images : List Text) × (aggregate_images events ≡ ok images)
      × (distinct images ≡ true)
      × ((b64 : Text) → has b64 images ≡ has b64 (images_of_events events))
unfolding aggregate_images
aggregate_images-distinct events b bs e = (
  unseen [] (b ∷ bs),
  rw (collect_images-events events [] [] ∙ e) refl,
  distinct-unseen [] (b ∷ bs),
  λ b64. rw (e, has-unseen [] (b ∷ bs) b64, has_none b64) (ground arith),
)
