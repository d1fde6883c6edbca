-- ===== src/CtfBills/Unique.antt =====
-- Ingesting bills: a fingerprint stands in the table once.
use nova_pay.Base.{
  ℕ, suc, ◌≤◌, ◌≡◌, refl, sym, subst, arith, String, Bool, true, false, not, ◌&&◌, Option, none,
  some, List, str_eq, eq_iff, Bool-cases, inl, inr,
}
use nova_pay.Base.Rows.{
  find, count_where, count_where-update_first_same, count_where-append,
  count_where-append_uncounted, count_where_absent,
}
use nova_pay.CtfBills.{CtfBillCaptureEvent, CaptureWorld, is_received, is_matched}
use nova_pay.CtfBills.Exclusive.{IsExclusive, pays, match-IsExclusive}
use nova_pay.CtfBills.Ingest.{
  CtfBillCapturePayload, has_fingerprint, new_event, create_event, reloaded, after_match, match_now,
  ingest_by, ingest_ctf_bill_capture_event, build_ctf_bill_capture_fingerprint,
  is_ctf_bill_capture_account, payload_channel,
}
use nova_pay.CtfBills.Laws.{Matches, match-Matches}
use nova_pay.CtfBills.Match.{is_event, matched_event, match_ctf_bill_capture_event}
use nova_pay.Orders.Create.Record.{natural}
use nova_pay.Orders.Slots.{round_cents}
use nova_pay.Store.Monad.{Result, ok, err}
use nova_pay.Store.Schema.{MerchantChannelAccount}
use nova_pay.Store.World.{Env}

-- No two bills have one fingerprint, and no two are matched to one order.
pub record IsSound (events : List CtfBillCaptureEvent) : Type 0 where
  pub unique : (f : String) → count_where (has_fingerprint f) events ≤ 1
  pub exclusive : IsExclusive events

match_unique :
    (env : Env) (minutes : ℕ) (event_id f : String) (s : CaptureWorld)
    → count_where (has_fingerprint f) s.events ≤ 1
    → count_where (has_fingerprint f) (match_ctf_bill_capture_event env minutes event_id s).1.events
      ≤ 1
unfolding Matches matched_event
match_unique env minutes event_id f s h =
    kept (match_ctf_bill_capture_event env minutes event_id s)
      (match-Matches env minutes event_id s)
  where
    kept :
        (p : Result (Option String) × CaptureWorld)
        → Matches minutes event_id s p
        → count_where (has_fingerprint f) p.1.events ≤ 1
    kept (ok none, s') same = subst (λ x. count_where (has_fingerprint f) x.events ≤ 1) (sym same) h
    kept (err x, s') same = subst (λ es. count_where (has_fingerprint f) es ≤ 1) (sym same) h
    kept (ok (some order_id), s') (e, o, account, now, q, t, a, member, is_o, fits, written) =
        subst (λ es. count_where (has_fingerprint f) es ≤ 1) (sym written)
          (subst (λ n. n ≤ 1)
            (sym (
              count_where-update_first_same (has_fingerprint f) (is_event e.id)
                (matched_event o.id now) s.events (λ x. refl)))
            h)

match-IsSound :
    (env : Env) (minutes : ℕ) (event_id : String) (s : CaptureWorld)
    → IsSound s.events
    → IsSound (match_ctf_bill_capture_event env minutes event_id s).1.events
match-IsSound env minutes event_id s sound = record {
  unique = λ f. match_unique env minutes event_id f s (sound.unique f);
  exclusive = match-IsExclusive env minutes event_id s sound.exclusive;
}

reloaded-events :
    (duplicate : Bool) (e : Option CtfBillCaptureEvent) (s : CaptureWorld)
    → (reloaded duplicate e s).1.events ≡ s.events
unfolding reloaded
reloaded-events duplicate none s = refl
reloaded-events duplicate (some e) s = refl

after_match-events :
    (duplicate : Bool) (e : CtfBillCaptureEvent) (p : Result (Option String) × CaptureWorld)
    → (after_match duplicate e p).1.events ≡ p.1.events
unfolding after_match
after_match-events duplicate e (err x, s) = refl
after_match-events duplicate e (ok none, s) = refl
after_match-events duplicate e (ok (some id), s) =
    reloaded-events duplicate (find (is_event e.id) s.events) s

match_now-IsSound :
    (env : Env) (immediately : Bool) (minutes : ℕ) (duplicate : Bool) (e : CtfBillCaptureEvent)
    (s : CaptureWorld)
    → IsSound s.events
    → IsSound (match_now env immediately minutes duplicate e s).1.events
unfolding match_now
match_now-IsSound env immediately minutes duplicate e s sound =
    elim (Bool-cases (immediately && is_received e.status)) [
      | inl t ↦ rw t (
          subst IsSound
            (sym (after_match-events duplicate e (match_ctf_bill_capture_event env minutes e.id s)))
            (match-IsSound env minutes e.id s sound))
      | inr t ↦ rw t sound
    ]

created-IsSound :
    (e : CtfBillCaptureEvent) (s : CaptureWorld)
    → find (has_fingerprint e.fingerprint) s.events ≡ none
    → is_matched e.status ≡ false
    → IsSound s.events
    → IsSound (create_event e s).events
unfolding create_event IsExclusive
created-IsSound e s new fresh sound = record {
  unique = λ f. elim (Bool-cases (str_eq e.fingerprint f)) [
    | inl t ↦ omega (
      arith,
      count_where-append (has_fingerprint f) s.events e,
      subst (λ x. count_where (has_fingerprint x) s.events ≡ 0) ((eq_iff e.fingerprint f).0 t)
          (count_where_absent (has_fingerprint e.fingerprint) s.events new),
    )
    | inr t ↦
        omega (arith, sound.unique f, count_where-append_uncounted (has_fingerprint f) s.events e t)
  ];
  exclusive = λ k.
      omega (
        arith,
        sound.exclusive k,
        count_where-append_uncounted (pays k) s.events e (rw fresh refl),
      );
}

ingest_by-IsSound :
    (env : Env) (account : MerchantChannelAccount) (p : CtfBillCapturePayload) (immediately : Bool)
    (minutes : ℕ) (channel : String) (amount : Option ℕ) (found : Option CtfBillCaptureEvent)
    (s : CaptureWorld)
    → find (has_fingerprint (build_ctf_bill_capture_fingerprint env account.id channel p)) s.events
      ≡ found
    → IsSound s.events
    → IsSound (ingest_by env account p immediately minutes channel amount found s).1.events
unfolding ingest_by new_event is_matched
ingest_by-IsSound env account p immediately minutes channel amount (some e) s h sound =
    match_now-IsSound env immediately minutes true e s sound
ingest_by-IsSound env account p immediately minutes channel none none s h sound = sound
ingest_by-IsSound env account p immediately minutes channel (some millionths) none s h sound =
    let e =
      new_event env account channel p (build_ctf_bill_capture_fingerprint env account.id channel p)
        (round_cents millionths) (env.fresh s.world.ticks) (env.time (suc s.world.ticks)) in
    match_now-IsSound env immediately minutes false e (create_event e s)
      (created-IsSound e s h refl sound)

-- Ingesting a bill keeps it that no two bills have one fingerprint and no two are matched to one order.
pub ingest-IsSound :
    (env : Env) (account : MerchantChannelAccount) (p : CtfBillCapturePayload) (immediately : Bool)
    (minutes : ℕ) (s : CaptureWorld)
    → IsSound s.events
    → IsSound (ingest_ctf_bill_capture_event env account p immediately minutes s).1.events
unfolding ingest_ctf_bill_capture_event
ingest-IsSound env account p immediately minutes s sound =
    elim (Bool-cases (not (is_ctf_bill_capture_account env account))) [
      | inl t ↦ rw t sound
      | inr t ↦
          rw t
            (elim (Bool-cases (not (str_eq (payload_channel env account p) account.channel_code))) [
              | inl u ↦ rw u sound
              | inr u ↦ rw u (
                  ingest_by-IsSound env account p immediately minutes
                    (payload_channel env account p) (natural (env.amount_of p.amount)) _ s refl
                    sound)
            ])
    ]
