-- ===== src/CtfBills/Laws.antt =====
-- Which order a captured bill is matched to, and that no order is paid by two bills.
use nova_pay.Base.{
  ℕ, ◌≡◌, refl, ap, subst, String, Bool, true, false, Option, none, some, get_or, List, [], ◌∷◌,
  str_eq, keep, Bool-cases, Option-cases, inl, inr, if◌then◌else◌,
}
use nova_pay.Base.Rows.{All-find, find, update_first}
use nova_pay.Base.Sort.{All, In, All-In, All-keep, All-sort_by, sort_by}
use nova_pay.Callbacks.Dispatch.{present}
use nova_pay.CtfBills.{CtfBillCaptureEvent, CaptureWorld, is_received}
use nova_pay.CtfBills.Match.{
  is_event, is_match_candidate, older_first, only_one, choose_order, remark_matches_order,
  find_matching_payment_order, captured_notification, matched_event, record_match, match_order,
  match_received, match_found, match_ctf_bill_capture_event,
}
use nova_pay.Orders.Notify.{apply_payment_notification}
use nova_pay.Store.Monad.{Result, ok, err}
use nova_pay.Store.Schema.{PaymentOrder}
use nova_pay.Store.World.{Env, World}

-- The end of a match of the bill with this id.
unfoldable pub Matches : ℕ → String → CaptureWorld → Result (Option String) × CaptureWorld → Type 0
Matches minutes event_id s (ok none, s') = s' ≡ s
Matches minutes event_id s (ok (some order_id), s') =
    (e : CtfBillCaptureEvent) × (o : PaymentOrder) × (account : String) × (now : ℕ) × (find
        (is_event event_id) s.events
      ≡ some e)
    × (is_received e.status ≡ true)
    × (e.merchant_channel_account_id ≡ some account)
    × In o s.world.orders
    × (o.id ≡ order_id)
    × (is_match_candidate account minutes s.events e o ≡ true)
    × (s'.events ≡ update_first (is_event e.id) (matched_event o.id now) s.events)
Matches minutes event_id s (err x, s') = s'.events ≡ s.events

if_some :
    (b : Bool) (r : Option PaymentOrder) (o : PaymentOrder)
    → (if b then r else none) ≡ some o
    → r ≡ some o
if_some true r o h = h
if_some false r o h = cc

only_sound :
    (P : PaymentOrder → Type 0) (os : List PaymentOrder) (o : PaymentOrder)
    → All P os
    → only_one os ≡ some o
    → P o
unfolding only_one
only_sound P [] o all h = cc
only_sound P (x ∷ []) o (p, all) h = subst P (ap (λ r. get_or r x) h) p
only_sound P (x ∷ y ∷ os) o all h = cc

chosen_sound :
    (env : Env) (e : CtfBillCaptureEvent) (P : PaymentOrder → Type 0) (os : List PaymentOrder)
    (found : Option PaymentOrder) (o : PaymentOrder)
    → All P os
    → ((x : PaymentOrder) → found ≡ some x → P x)
    → choose_order env e os found ≡ some o
    → P o
unfolding choose_order
chosen_sound env e P os (some x) o all h k = h o k
chosen_sound env e P os none o all h k = only_sound P os o all (if_some _ (only_one os) o k)

IsCandidate : String → ℕ → CtfBillCaptureEvent → CaptureWorld → PaymentOrder → Type 0
IsCandidate account minutes e s o =
    In o s.world.orders × (is_match_candidate account minutes s.events e o ≡ true)

-- The order that is found is one of the orders that the query and the amount select.
find_matching-IsCandidate :
    (env : Env) (account : String) (minutes : ℕ) (e : CtfBillCaptureEvent) (s : CaptureWorld)
    (o : PaymentOrder)
    → find_matching_payment_order env account minutes e s ≡ some o
    → IsCandidate account minutes e s o
unfolding find_matching_payment_order IsCandidate
find_matching-IsCandidate env account minutes e s o =
    chosen_sound env e
      (λ x. In x s.world.orders × (is_match_candidate account minutes s.events e x ≡ true))
      candidates (find (remark_matches_order env e.remark) candidates) o all
      (λ x.
        All-find
          (λ x. In x s.world.orders × (is_match_candidate account minutes s.events e x ≡ true))
          (remark_matches_order env e.remark) candidates x all)
  where
    candidates : List PaymentOrder
    candidates =
        keep (is_match_candidate account minutes s.events e) (sort_by older_first s.world.orders)

    all :
        All
          (λ x. In x s.world.orders × (is_match_candidate account minutes s.events e x ≡ true))
          candidates
    all =
        All-keep (λ x. In x s.world.orders) (is_match_candidate account minutes s.events e)
          (sort_by older_first s.world.orders)
          (All-sort_by (λ x. In x s.world.orders) older_first s.world.orders
            (All-In (λ x. In x s.world.orders) s.world.orders (λ x i. i)))

present-given : (raw : Option String) (x : String) → present raw ≡ some x → raw ≡ some x
present-given none x h = cc
present-given (some raw) x h = elim (Bool-cases (str_eq raw "")) [
  | inl t ↦ absurd (no_text (subst (λ b. (if b then none else some raw) ≡ some x) t h))
  | inr t ↦ subst (λ b. (if b then none else some raw) ≡ some x) t h
]
  where
    no_text : ¬ (none ≡ some x)
    no_text q = cc

pub match-Matches :
    (env : Env) (minutes : ℕ) (event_id : String) (s : CaptureWorld)
    → Matches minutes event_id s (match_ctf_bill_capture_event env minutes event_id s)
unfolding match_ctf_bill_capture_event match_found match_received match_order record_match Matches
    IsCandidate
match-Matches env minutes event_id s = elim (Option-cases (find (is_event event_id) s.events)) [
  | inl q ↦ rw q refl
  | inr (e, q) ↦ rw q (elim (Bool-cases (is_received e.status)) [
    | inr t ↦ rw t refl
    | inl t ↦ rw t (elim (Option-cases (present e.merchant_channel_account_id)) [
      | inl a ↦ rw a refl
      | inr (account, a) ↦
          rw a (elim (Option-cases (find_matching_payment_order env account minutes e s)) [
            | inl f ↦ rw f refl
            | inr (o, f) ↦ rw f (
                recorded e o account q t (present-given _ account a)
                  (find_matching-IsCandidate env account minutes e s o f)
                  (apply_payment_notification env (captured_notification env e o) s.world))
          ])
    ])
  ])
]
  where
    recorded :
        (e : CtfBillCaptureEvent) (o : PaymentOrder) (account : String)
        → find (is_event event_id) s.events ≡ some e
        → is_received e.status ≡ true
        → e.merchant_channel_account_id ≡ some account
        → IsCandidate account minutes e s o
        → (p : Result PaymentOrder × World)
        → Matches minutes event_id s (record_match env e o s.events p)
    recorded e o account q t a (member, fits) (ok row, w) =
        (e, o, account, env.time w.ticks, q, t, a, member, refl, fits, refl)
    recorded e o account q t a (member, fits) (err x, w) = refl
