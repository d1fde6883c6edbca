-- ===== src/Registry/Review.antt =====
-- apps/registry/lib/review/state-machine.ts: the states of a plugin's version, and the moves between
-- them; and the states that apps/registry/lib/runtime/state.ts registers a version in.
pub mod Laws
use nova_pay.Base.{ℕ, Bool, true, false, ◌||◌, List, [], ◌∷◌, ◌==◌, if◌then◌else◌, Option, get_or}

pub data ReviewState : Type 0 where
  draft submitted in_review approved rejected published deprecated taken_down : ReviewState

abbrev pub review_rank : ReviewState → ℕ
review_rank draft = 0
review_rank submitted = 1
review_rank in_review = 2
review_rank approved = 3
review_rank rejected = 4
review_rank published = 5
review_rank deprecated = 6
review_rank taken_down = 7

-- `TRANSITIONS.get(from)`, which has an entry for each state
unfoldable pub list_allowed_transitions : ReviewState → List ReviewState
list_allowed_transitions draft = submitted ∷ []
list_allowed_transitions submitted = in_review ∷ approved ∷ draft ∷ []
list_allowed_transitions in_review = approved ∷ rejected ∷ []
list_allowed_transitions rejected = draft ∷ []
list_allowed_transitions approved = published ∷ taken_down ∷ []
list_allowed_transitions published = deprecated ∷ taken_down ∷ []
list_allowed_transitions deprecated = taken_down ∷ []
list_allowed_transitions taken_down = []

unfoldable pub has_state : ReviewState → List ReviewState → Bool
has_state s [] = false
has_state s (t ∷ ts) = review_rank t == review_rank s || has_state s ts

unfoldable pub is_review_transition_allowed : ReviewState → ReviewState → Bool
unfolding list_allowed_transitions has_state
is_review_transition_allowed from to =
    if review_rank from == review_rank to
    then true
    else has_state to (list_allowed_transitions from)

pub data TransitionResult : Type 0 where
  permitted : TransitionResult
  review_state_machine_violation : ReviewState → ReviewState → TransitionResult

unfoldable pub assert_review_transition : ReviewState → ReviewState → TransitionResult
assert_review_transition from to =
    if is_review_transition_allowed from to
    then permitted
    else review_state_machine_violation from to

-- registerUploadedCatalogBundle: the state of a version that is registered, from the one it is given.
unfoldable pub uploaded_state : Option ReviewState → ReviewState
uploaded_state given = get_or given draft

-- initState: the state of a stored version when the registry starts, from the slug being an official
-- one and from the persisted record.
unfoldable pub restarted_state : Bool → Option ReviewState → ReviewState
restarted_state official record_state =
    if official then published else get_or record_state published
