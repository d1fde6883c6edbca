-- ===== src/Finance/Ledger/Laws.antt =====
-- What the ledger holds once an order or a refund has been posted.
use nova_pay.Base.{
  ◌≡◌, ◌≢◌, refl, ap, ◌∙◌, Option, none, some, List, ltb, if◌then◌else◌, Bool-cases, inl, inr,
}
use nova_pay.Base.Int.{ℤ, pos, ◌-ℤ◌}
use nova_pay.Store.Schema.{
  PaymentOrder, PaymentRefund, Merchant, MerchantLedgerEntry, ExternalKey, capture_key, fee_key,
  refund_key,
}
use nova_pay.Store.World.{Env}
use nova_pay.Finance.Calculations.Digest.{signed}
use nova_pay.Finance.Ledger.{
  post_order, post_refund, capture_entry, capture_update, fee_entry, fee_update, refund_entry,
  refund_update,
}
use nova_pay.Finance.Ledger.Upsert.{
  find_entry, upsert, upserted, find_entry-upsert, find_entry-upsert_other, find_entry-delete,
  find_entry-delete_other,
}

-- The amount that stands under a key, with its sign: a credit counts as it is, a debit negatively.
abbrev pub signed_amount : Option MerchantLedgerEntry → Option ℤ
signed_amount none = none
signed_amount (some e) = some (signed e.direction e.amount)

abbrev pub posted : ExternalKey → List MerchantLedgerEntry → Option ℤ
posted k entries = signed_amount (find_entry k entries)

posted-upsert :
    (k : ExternalKey) (f : MerchantLedgerEntry → MerchantLedgerEntry)
    (created : MerchantLedgerEntry) (amount : ℤ)
    → ((x : MerchantLedgerEntry) → (f x).external_key ≡ x.external_key)
    → created.external_key ≡ k
    → signed created.direction created.amount ≡ amount
    → ((x : MerchantLedgerEntry) → signed (f x).direction (f x).amount ≡ amount)
    → (entries : List MerchantLedgerEntry) → posted k (upsert k f created entries) ≡ some amount
posted-upsert k f created amount keeps keyed new old entries =
    rw (find_entry-upsert k f created keeps keyed entries) (cases (find_entry k entries))
  where
    cases :
        (o : Option MerchantLedgerEntry)
        → signed_amount (some (upserted k f created keeps keyed entries o)) ≡ some amount
    cases none = ap some new
    cases (some x) = ap some (old x)

module _ (env : Env) (o : PaymentOrder) (m : Merchant) (entries : List MerchantLedgerEntry) where
  captured : List MerchantLedgerEntry
  captured = upsert (capture_key o.id) (capture_update env o m) (capture_entry env o m) entries

  fee_not_capture : fee_key o.id ≢ capture_key o.id
  fee_not_capture e = cc

  captured_lem : posted (capture_key o.id) captured ≡ some (pos o.amount)
  unfolding captured capture_update
  captured_lem =
      posted-upsert (capture_key o.id) (capture_update env o m) (capture_entry env o m)
        (pos o.amount) (λ x. refl) refl refl (λ x. refl) entries

  -- After an order is posted, its whole amount stands as a credit under its capture key, and under
  -- its fee key the fee stands as a debit, or nothing if there is no fee, even where an earlier
  -- posting left one.
  pub post_order-posted :
      (posted (capture_key o.id) (post_order env o m entries) ≡ some (pos o.amount))
      × (posted (fee_key o.id) (post_order env o m entries)
          ≡ (if ltb 0 o.fee_amount then some (pos 0 -ℤ pos o.fee_amount) else none))
  unfolding post_order captured fee_update
  post_order-posted = elim (Bool-cases (ltb 0 o.fee_amount)) [
    | inl h ↦ rw h (
      ap signed_amount (
            find_entry-upsert_other (fee_key o.id) (fee_update env o m) (fee_entry env o m)
              (λ x. refl) refl captured (capture_key o.id) (λ e. cc))
          ∙ captured_lem,
      posted-upsert (fee_key o.id) (fee_update env o m) (fee_entry env o m)
          (pos 0 -ℤ pos o.fee_amount) (λ x. refl) refl refl (λ x. refl) captured,
    )
    | inr h ↦ rw h (
      ap signed_amount
            (find_entry-delete_other (fee_key o.id) (capture_key o.id) captured (λ e. cc))
          ∙ captured_lem,
      ap signed_amount (find_entry-delete (fee_key o.id) captured),
    )
  ]

  -- Posting an order touches no entry under another key.
  pub post_order-others :
      (k : ExternalKey)
      → k ≢ capture_key o.id
      → k ≢ fee_key o.id
      → find_entry k (post_order env o m entries) ≡ find_entry k entries
  unfolding post_order captured capture_update fee_update
  post_order-others k nc nf = elim (Bool-cases (ltb 0 o.fee_amount)) [
    | inl h ↦ rw h (
        find_entry-upsert_other (fee_key o.id) (fee_update env o m) (fee_entry env o m) (λ x. refl)
          refl captured k nf
        ∙ kept)
    | inr h ↦ rw h (find_entry-delete_other (fee_key o.id) k captured nf ∙ kept)
  ]
    where
      kept : find_entry k captured ≡ find_entry k entries
      kept =
          find_entry-upsert_other (capture_key o.id) (capture_update env o m)
            (capture_entry env o m) (λ x. refl) refl entries k nc

-- After a refund is posted, its amount stands as a debit under its key, and no entry under another
-- key has changed.
pub post_refund-posted :
    (env : Env) (r : PaymentRefund) (o : PaymentOrder) (m : Merchant)
    (entries : List MerchantLedgerEntry) (k : ExternalKey)
    → k ≢ refund_key r.id
    → (posted (refund_key r.id) (post_refund env r o m entries) ≡ some (pos 0 -ℤ pos r.amount))
      × (find_entry k (post_refund env r o m entries) ≡ find_entry k entries)
unfolding post_refund refund_update
post_refund-posted env r o m entries k ne = (
  posted-upsert (refund_key r.id) (refund_update env r o m) (refund_entry env r o m)
      (pos 0 -ℤ pos r.amount) (λ x. refl) refl refl (λ x. refl) entries,
  find_entry-upsert_other (refund_key r.id) (refund_update env r o m) (refund_entry env r o m)
      (λ x. refl) refl entries k ne,
)
