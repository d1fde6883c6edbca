-- ===== src/Registry/Review/Laws.antt =====
-- The life of a plugin's version.
use nova_pay.Base.{◌≡◌, some, none, Bool, true, false, List, [], ◌∷◌}
use nova_pay.Registry.Review.{
  ReviewState, draft, submitted, in_review, rejected, assert_review_transition, permitted,
  uploaded_state, restarted_state,
}

-- The states that a version goes through, the list having those after the first: moves that
-- `assertReviewTransition` permits, uploads, and starts of the registry with the version's record.
pub data Life (official : Bool) : ReviewState → List ReviewState → ReviewState → Type 0 where
  here : {s : ReviewState} → Life official s [] s
  move :
      {s t u : ReviewState} {visited : List ReviewState}
      → assert_review_transition s t ≡ permitted
      → Life official t visited u
      → Life official s (t ∷ visited) u
  upload :
      {s u : ReviewState} {visited : List ReviewState}
      → Life official (uploaded_state none) visited u
      → Life official s (uploaded_state none ∷ visited) u
  restart :
      {s u : ReviewState} {visited : List ReviewState}
      → Life official (uploaded_state (some (restarted_state official (some s)))) visited u
      → Life official s (uploaded_state (some (restarted_state official (some s))) ∷ visited) u

-- The states before an approval.
unfoldable pub is_unapproved : ReviewState → Bool
is_unapproved draft = true
is_unapproved submitted = true
is_unapproved in_review = true
is_unapproved rejected = true
is_unapproved _ = false
