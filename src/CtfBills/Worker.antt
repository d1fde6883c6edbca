-- ===== src/CtfBills/Worker.antt =====
-- lib/ctf-bill-capture/service.ts, getCtfBillCaptureWorkerConfig and runDueCtfBillCaptureMatches. An
-- error's message is kept whole where the source cuts it at 2000 characters.
use nova_pay.Base.{
  ℕ, zero, suc, ◌+◌, ◌-◌, ◌*◌, String, Bool, true, false, ◌&&◌, ◌||◌, Option, none, some, List, [],
  ◌∷◌, ◌==◌, ltb, leb, keep, length, is_some, if◌then◌else◌,
}
use nova_pay.Base.Rows.{count_where, update_where}
use nova_pay.Base.Sort.{sort_by, take}
use nova_pay.CtfBills.{CtfBillCaptureEvent, CaptureWorld, is_received, received, dead_letter}
use nova_pay.CtfBills.Match.{is_event, match_ctf_bill_capture_event}
use nova_pay.Store.Monad.{Result, ok, err}
use nova_pay.Store.World.{Env}

pub record MatchRun : Type 0 where
  pub limit : ℕ
  pub match_window_minutes : ℕ
  pub max_attempts : ℕ
  pub retry_base_seconds : ℕ

-- `input?.limit ?? …` and so on, with nothing given
abbrev pub default_match_run : MatchRun
default_match_run = record {
  limit = 50;
  match_window_minutes = 30;
  max_attempts = 5;
  retry_base_seconds = 60;
}

-- `OR: [{ nextAttemptAt: null }, { nextAttemptAt: { lte: now } }]`, of a bill that is still open
unfoldable pub is_due_event : ℕ → CtfBillCaptureEvent → Bool
is_due_event now e =
    is_received e.status && elim e.next_attempt_at [ none ↦ true | some t ↦ leb t now ]

abbrev pub paid_first : CtfBillCaptureEvent → CtfBillCaptureEvent → Bool
paid_first a b = ltb a.paid_at b.paid_at || leb a.paid_at b.paid_at && leb a.created_at b.created_at

unfoldable pub select_due : ℕ → ℕ → List CtfBillCaptureEvent → List CtfBillCaptureEvent
select_due limit now events = take limit (
    sort_by paid_first
      (keep (λ e. is_due_event now e && is_some e.merchant_channel_account_id) events))

-- The number of the attempt, counted from one: the exponent starts at nought.
unfoldable pub power_of_two : ℕ → ℕ
power_of_two zero = 1
power_of_two (suc n) = 2 * power_of_two n

unfoldable pub retry_delay_ms : ℕ → ℕ → ℕ
unfolding power_of_two
retry_delay_ms base_seconds attempt = base_seconds * 1000 * power_of_two (attempt - 1)

abbrev pub set_events : List CtfBillCaptureEvent → CaptureWorld → CaptureWorld
set_events es s = record s { events = es }

-- One question to the clock.
abbrev pub tick : CaptureWorld → CaptureWorld
tick s = record s { world = record (s.world) { ticks = suc s.world.ticks } }

abbrev pub clock : Env → CaptureWorld → ℕ
clock env s = env.time s.world.ticks

abbrev pub claimable : String → ℕ → CtfBillCaptureEvent → Bool
claimable id now e = is_event id e && is_due_event now e

unfoldable pub claim_event : Env → String → ℕ → CaptureWorld → Bool × CaptureWorld
claim_event env id now s = (
  count_where (claimable id now) s.events == 1,
  tick (
      set_events
        (update_where (claimable id now)
          (λ e. record e { next_attempt_at = some (clock env s + 60000); updated_at = clock env s })
          s.events)
        s),
)

pub record Attempt : Type 0 where
  pub event_id : String
  pub attempt_count : ℕ
  pub is_last : Bool
  pub next_attempt_at : Option ℕ

-- The data of the two updates that follow an attempt without a match.
unfoldable pub attempted_event :
    Attempt → ℕ → String → Option String → CtfBillCaptureEvent → CtfBillCaptureEvent
attempted_event a now code message e = record e {
  attempt_count = a.attempt_count;
  last_attempt_at = some now;
  next_attempt_at = a.next_attempt_at;
  status = if a.is_last then dead_letter else received;
  failure_code = some (if a.is_last then "MATCH_ATTEMPTS_EXHAUSTED" else code);
  failure_message = message;
  updated_at = now;
}

unfoldable pub record_attempt : Env → Attempt → String → Option String → CaptureWorld → CaptureWorld
unfolding attempted_event
record_attempt env a code message s = tick (
    set_events
      (update_where (λ e. is_event a.event_id e && is_received e.status)
        (attempted_event a (clock env s) code message) s.events)
      s)

pub record MatchTally : Type 0 where
  pub matched_count : ℕ
  pub still_open_count : ℕ
  pub error_count : ℕ
  pub dead_letter_count : ℕ

abbrev count_dead : Attempt → MatchTally → MatchTally
count_dead a t = record t {
  dead_letter_count = if a.is_last then suc t.dead_letter_count else t.dead_letter_count;
}

unfoldable pub count_attempt :
    Env → Attempt → MatchTally → Result (Option String) × CaptureWorld → MatchTally × CaptureWorld
unfolding record_attempt
count_attempt env a t (ok (some order_id), s) =
    (record t { matched_count = suc t.matched_count }, s)
count_attempt env a t (ok none, s) = (
  count_dead a (record t { still_open_count = suc t.still_open_count }),
  record_attempt env a "NO_MATCH" none s,
)
count_attempt env a t (err e, s) = (
  count_dead a (record t { error_count = suc t.error_count }),
  record_attempt env a "MATCH_ERROR" (some (env.message e)) s,
)

-- The attempt that a claim allows. The clock is asked only if another attempt may follow.
unfoldable pub attempt_of : Env → MatchRun → CtfBillCaptureEvent → CaptureWorld → Attempt
unfolding retry_delay_ms
attempt_of env run e s =
    let attempt = e.attempt_count + 1 in
    let last = leb run.max_attempts attempt in
    record {
      event_id = e.id;
      attempt_count = attempt;
      is_last = last;
      next_attempt_at =
          if last then none else some (clock env s + retry_delay_ms run.retry_base_seconds attempt);
    }

abbrev pub after_attempt_clock : Attempt → CaptureWorld → CaptureWorld
after_attempt_clock a s = if a.is_last then s else tick s

unfoldable pub attempt_event :
    Env → MatchRun → CtfBillCaptureEvent → MatchTally → CaptureWorld → MatchTally × CaptureWorld
unfolding count_attempt
attempt_event env run e t s =
    let a = attempt_of env run e s in
    count_attempt env a t (
      match_ctf_bill_capture_event env run.match_window_minutes a.event_id
        (after_attempt_clock a s))

unfoldable pub attempt_if_claimed :
    Env
    → MatchRun
    → CtfBillCaptureEvent
    → MatchTally
    → Bool × CaptureWorld
    → MatchTally × CaptureWorld
unfolding attempt_event
attempt_if_claimed env run e t (false, s) = (t, s)
attempt_if_claimed env run e t (true, s) = attempt_event env run e t s

unfoldable pub match_each :
    Env
    → MatchRun
    → ℕ
    → List CtfBillCaptureEvent
    → MatchTally
    → CaptureWorld
    → MatchTally × CaptureWorld
unfolding attempt_if_claimed claim_event
match_each env run now [] t s = (t, s)
match_each env run now (e ∷ es) t s =
    let (t', s') = attempt_if_claimed env run e t (claim_event env e.id now s) in
    match_each env run now es t' s'

-- The number of selected bills, the tally, and the state after the run.
unfoldable pub run_due_ctf_bill_capture_matches :
    Env → MatchRun → CaptureWorld → ℕ × (MatchTally × CaptureWorld)
unfolding match_each select_due is_due_event
run_due_ctf_bill_capture_matches env run s =
    let now = clock env s in
    let events = select_due run.limit now s.events in
    (
      length events,
      match_each env run now events
          (record {
            matched_count = 0;
            still_open_count = 0;
            error_count = 0;
            dead_letter_count = 0;
          })
          (tick s),
    )
