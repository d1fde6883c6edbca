-- ===== src/CtfBills/Exclusive.antt =====
-- No order is paid by two captured bills.
use nova_pay.Base.{
  ℕ, ◌≤◌, ◌≡◌, refl, sym, ap, subst, arith, String, Bool, true, false, ◌&&◌, Option, none, some,
  List, [], ◌∷◌, str_eq, eq_iff, Bool-cases, inl, inr,
}
use nova_pay.Base.Rows.{
  update_first, count_where, count_where-update_first, count_where-update_uncounted,
  count_where-update_same, count_where-update_all_uncounted,
}
use nova_pay.CtfBills.{CtfBillCaptureEvent, CaptureWorld, is_received, is_matched}
use nova_pay.CtfBills.Laws.{Matches, match-Matches}
use nova_pay.CtfBills.Match.{
  is_event, is_match_candidate, has_matched_bill, matched_event, match_ctf_bill_capture_event,
}
use nova_pay.CtfBills.Worker.{
  MatchRun, MatchTally, Attempt, claim_event, claimable, attempted_event, record_attempt,
  count_attempt, attempt_of, attempt_event, after_attempt_clock, attempt_if_claimed, match_each,
  run_due_ctf_bill_capture_matches, select_due,
}
use nova_pay.Store.Monad.{Result, ok, err}
use nova_pay.Store.Schema.{PaymentOrder}
use nova_pay.Store.World.{Env}

-- Whether a bill is matched to the order with this id.
abbrev pub pays : String → CtfBillCaptureEvent → Bool
pays order_id e =
    is_matched e.status
    && elim e.matched_payment_order_id [ none ↦ false | some id ↦ str_eq id order_id ]

-- No order has two matched bills.
unfoldable pub IsExclusive : List CtfBillCaptureEvent → Type 0
IsExclusive events = (order_id : String) → count_where (pays order_id) events ≤ 1

unmatched_count :
    (order_id : String) (events : List CtfBillCaptureEvent)
    → has_matched_bill order_id events ≡ false
    → count_where (pays order_id) events ≡ 0
unfolding has_matched_bill count_where
unmatched_count order_id [] h = refl
unmatched_count order_id (e ∷ es) h = ground (arith, unmatched_count order_id es)

candidate_unmatched :
    (account : String) (minutes : ℕ) (events : List CtfBillCaptureEvent) (e : CtfBillCaptureEvent)
    (o : PaymentOrder)
    → is_match_candidate account minutes events e o ≡ true
    → has_matched_bill o.id events ≡ false
unfolding is_match_candidate
candidate_unmatched account minutes events e o h = ground arith

matched-IsExclusive :
    (event_id order_id : String) (now : ℕ) (events : List CtfBillCaptureEvent)
    → has_matched_bill order_id events ≡ false
    → IsExclusive events
    → IsExclusive (update_first (is_event event_id) (matched_event order_id now) events)
unfolding IsExclusive matched_event is_matched
matched-IsExclusive event_id order_id now events h exclusive k =
    elim (Bool-cases (str_eq order_id k)) [
      | inl t ↦ first_bill ((eq_iff order_id k).0 t)
      | inr t ↦ omega (
        arith,
        exclusive k,
        count_where-update_uncounted (pays k) (is_event event_id) (matched_event order_id now)
            events (λ e. t),
      )
    ]
  where
    first_bill :
        order_id ≡ k
        → count_where
            (pays k)
            (update_first (is_event event_id) (matched_event order_id now) events)
          ≤ 1
    first_bill same = omega (
      arith,
      count_where-update_first (pays k) (is_event event_id) (matched_event order_id now) events,
      unmatched_count k events (subst (λ x. has_matched_bill x events ≡ false) same h),
    )

-- A match keeps it that no order has two matched bills.
pub match-IsExclusive :
    (env : Env) (minutes : ℕ) (event_id : String) (s : CaptureWorld)
    → IsExclusive s.events
    → IsExclusive (match_ctf_bill_capture_event env minutes event_id s).1.events
unfolding Matches
match-IsExclusive env minutes event_id s exclusive =
    kept (match_ctf_bill_capture_event env minutes event_id s)
      (match-Matches env minutes event_id s)
  where
    kept :
        (p : Result (Option String) × CaptureWorld)
        → Matches minutes event_id s p
        → IsExclusive p.1.events
    kept (ok none, s') same = subst IsExclusive (ap (λ x. x.events) (sym same)) exclusive
    kept (err x, s') same = subst IsExclusive (sym same) exclusive
    kept (ok (some order_id), s') (e, o, account, now, q, t, a, member, is_o, fits, written) =
        subst IsExclusive (sym written) (
          matched-IsExclusive e.id o.id now s.events
            (candidate_unmatched account minutes s.events e o fits) exclusive)

claim-IsExclusive :
    (env : Env) (id : String) (now : ℕ) (s : CaptureWorld)
    → IsExclusive s.events
    → IsExclusive (claim_event env id now s).1.events
unfolding claim_event IsExclusive
claim-IsExclusive env id now s exclusive k =
    subst (λ n. n ≤ 1)
      (sym (count_where-update_same (pays k) (claimable id now) _ s.events (λ e. refl)))
      (exclusive k)

record_attempt-IsExclusive :
    (env : Env) (a : Attempt) (code : String) (message : Option String) (s : CaptureWorld)
    → IsExclusive s.events
    → IsExclusive (record_attempt env a code message s).events
unfolding record_attempt attempted_event IsExclusive is_matched
record_attempt-IsExclusive env a code message s exclusive k = omega (
  arith,
  exclusive k,
  count_where-update_all_uncounted (pays k) (λ e. is_event a.event_id e && is_received e.status)
      (attempted_event a (env.time s.world.ticks) code message) s.events unpaid,
)
  where
    unpaid :
        (e : CtfBillCaptureEvent)
        → pays k (attempted_event a (env.time s.world.ticks) code message e) ≡ false
    unpaid e = elim (Bool-cases a.is_last) [ inl t ↦ rw t refl | inr t ↦ rw t refl ]

count_attempt-IsExclusive :
    (env : Env) (a : Attempt) (t : MatchTally) (p : Result (Option String) × CaptureWorld)
    → IsExclusive p.1.events
    → IsExclusive (count_attempt env a t p).1.events
unfolding count_attempt
count_attempt-IsExclusive env a t (ok (some id), s) h = h
count_attempt-IsExclusive env a t (ok none, s) h =
    record_attempt-IsExclusive env a "NO_MATCH" none s h
count_attempt-IsExclusive env a t (err e, s) h =
    record_attempt-IsExclusive env a "MATCH_ERROR" (some (env.message e)) s h

after_clock : (a : Attempt) (s : CaptureWorld) → (after_attempt_clock a s).events ≡ s.events
after_clock a s = elim (Bool-cases a.is_last) [ inl t ↦ rw t refl | inr t ↦ rw t refl ]

attempted-IsExclusive :
    (env : Env) (run : MatchRun) (e : CtfBillCaptureEvent) (t : MatchTally)
    (p : Bool × CaptureWorld)
    → IsExclusive p.1.events
    → IsExclusive (attempt_if_claimed env run e t p).1.events
unfolding attempt_if_claimed attempt_event
attempted-IsExclusive env run e t (false, s) h = h
attempted-IsExclusive env run e t (true, s) h =
    count_attempt-IsExclusive env (attempt_of env run e s) t
      (match_ctf_bill_capture_event env run.match_window_minutes (attempt_of env run e s).event_id
        (after_attempt_clock (attempt_of env run e s) s))
      (match-IsExclusive env run.match_window_minutes (attempt_of env run e s).event_id
        (after_attempt_clock (attempt_of env run e s) s)
        (subst IsExclusive (sym (after_clock (attempt_of env run e s) s)) h))

match_each-IsExclusive :
    (env : Env) (run : MatchRun) (now : ℕ) (es : List CtfBillCaptureEvent) (t : MatchTally)
    (s : CaptureWorld)
    → IsExclusive s.events
    → IsExclusive (match_each env run now es t s).1.events
unfolding match_each
match_each-IsExclusive env run now [] t s h = h
match_each-IsExclusive env run now (e ∷ es) t s h = match_each-IsExclusive env run now es _ _ (
    attempted-IsExclusive env run e t (claim_event env e.id now s)
      (claim-IsExclusive env e.id now s h))

-- A run of the worker keeps it that no order has two matched bills, however the notifications end.
pub run_due-IsExclusive :
    (env : Env) (run : MatchRun) (s : CaptureWorld)
    → IsExclusive s.events
    → IsExclusive (run_due_ctf_bill_capture_matches env run s).1.1.events
unfolding run_due_ctf_bill_capture_matches
run_due-IsExclusive env run s h =
    match_each-IsExclusive env run (env.time s.world.ticks)
      (select_due run.limit (env.time s.world.ticks) s.events) _ _ h
