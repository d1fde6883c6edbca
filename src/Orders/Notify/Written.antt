-- ===== src/Orders/Notify/Written.antt =====
-- What the part of a notification after its first write leaves: the callback and the ledger.
use nova_pay.Base.{
  ℕ, ◌≡◌, refl, sym, ap, subst, ◌∙◌, String, Bool, true, false, some, List, if◌then◌else◌,
  Bool-cases, inl, inr, not, ◌&&◌, str_eq,
}
use nova_pay.Base.Rows.{find}
use nova_pay.Base.Int.{pos}
use nova_pay.Orders.Status.{succeeded, delivered, ◌is◌}
use nova_pay.Store.Schema.{PaymentOrder, Merchant, MerchantLedgerEntry, capture_key, ◌at◌}
use nova_pay.Store.World.{Env, World, Error, thrown, threw}
use nova_pay.Callbacks.Plan.{build_plan}
use nova_pay.Store.Monad.{Result, ok, err, continue, ◌>>◌, find_order, find_merchant}
use nova_pay.Store.Ends.{Ends, either_if}
use nova_pay.Store.Frame.{find_order-id}
use nova_pay.Callbacks.Dispatch.{DispatchResult, skipped, sent, dispatch_merchant_callback}
use nova_pay.Callbacks.Dispatch.Laws.{load_lem, dispatch-Dispatched}
use nova_pay.Callbacks.Dispatch.Recorded.{terms, rest, Dispatched}
use nova_pay.Finance.Ledger.{sync_payment_order_ledger_entries, post_order}
use nova_pay.Finance.Ledger.Laws.{posted, post_order-posted}
use nova_pay.Orders.Notify.{dispatch_if_queued, sync_if_succeeded}

sync_lem :
    (env : Env) (id : String) (w : World) (o : PaymentOrder) (m : Merchant)
    → find_order id w ≡ some o
    → find_merchant o.merchant_id w ≡ some m
    → (o.status is succeeded) ≡ true
    → sync_payment_order_ledger_entries env id w
      ≡ (ok tt, record w { ledger = post_order env o m w.ledger })
unfolding sync_payment_order_ledger_entries
sync_lem env id w o m e f h = rw (load_lem id w o m e f, h)

-- What is left behind by a notification that wrote the row `row`, given the ledger before.
abbrev pub Settled : PaymentOrder → List MerchantLedgerEntry → PaymentOrder → World → Type 0
Settled row before updated w' =
    (o' : PaymentOrder) × (find_order row.id w' ≡ some o')
    × (terms o' ≡ terms row)
    × (updated ≡ row)
    × (posted (capture_key row.id) w'.ledger ≡ (
        if row.status is succeeded
        then some (pos row.amount)
        else posted (capture_key row.id) before))

merchant_of :
    (o row : PaymentOrder) (m : Merchant) (w : World)
    → terms o ≡ terms row
    → find_merchant row.merchant_id w ≡ some m
    → find_merchant o.merchant_id w ≡ some m
merchant_of o row m w same f = subst (λ k. find_merchant k w ≡ some m) (sym (ap (λ t. t.3) same)) f

sync_if_succeeded-Settled :
    (env : Env) (row o : PaymentOrder) (m : Merchant) (before : List MerchantLedgerEntry)
    (w : World)
    → find_order row.id w ≡ some o
    → terms o ≡ terms row
    → find_merchant row.merchant_id w ≡ some m
    → w.ledger ≡ before
    → o.id ≡ row.id
    → Ends (Settled row before) (sync_if_succeeded env row w)
unfolding sync_if_succeeded
sync_if_succeeded-Settled env row o m before w e same f kept ids =
    elim (Bool-cases (row.status is succeeded)) [
      | inl h ↦
          rw
            (
              h,
              sync_lem env row.id w o m e (merchant_of o row m w same f)
                  (subst (λ s. (s is succeeded) ≡ true) (sym (ap (λ t. t.0) same)) h),
              Ends,
            )
            (
              o,
              e,
              same,
              refl,
              rw h (
                  subst
                    (λ id.
                      posted (capture_key id) (post_order env o m w.ledger) ≡ some (pos row.amount))
                    ids ((post_order-posted env o m w.ledger).0 ∙ ap (λ t. some (pos t.1)) same)),
            )
      | inr h ↦ rw (h, Ends) (o, e, same, refl, rw h (ap (posted (capture_key row.id)) kept))
    ]

-- What the error `e` leaves behind, if it left the callback of the row `row` that was written: that row,
-- but for its callback, and the ledger as it was. It is the error of a request that cannot be made.
abbrev pub Interrupted :
    Env → PaymentOrder → Merchant → List MerchantLedgerEntry → Error → World → Type 0
Interrupted env row m before e w' =
    (o' : PaymentOrder) × (text : String) × (target : String) × (now : ℕ) × (find_order row.id w'
      ≡ some o')
    × (terms o' ≡ terms row)
    × (w'.ledger ≡ before)
    × (e ≡ thrown text)
    × (build_plan env row m target (env.iso now) w' ≡ threw text)

abbrev pub Written :
    Env → PaymentOrder → Merchant → List MerchantLedgerEntry → Result PaymentOrder × World → Type 0
Written env row m before (ok u, w') = Settled row before u w'
Written env row m before (err e, w') = Interrupted env row m before e w'

Ends-Written :
    (env : Env) (row : PaymentOrder) (m : Merchant) (before : List MerchantLedgerEntry)
    (p : Result PaymentOrder × World)
    → Ends (Settled row before) p
    → Written env row m before p
Ends-Written env row m before (ok u, w') h = h
Ends-Written env row m before (err e, w') h = elim h [ ]

-- What the part after the first write leaves, if the merchants and the ledger were not touched by it.
pub dispatch_if_queued-Written :
    (env : Env) (queued : Bool) (row : PaymentOrder) (m : Merchant) (w : World)
    → find_order row.id w ≡ some row
    → find_merchant row.merchant_id w ≡ some m
    → Written env row m w.ledger (dispatch_if_queued env queued row w)
unfolding dispatch_if_queued
dispatch_if_queued-Written env queued row m w e f =
    either_if (Written env row m w.ledger) (queued && not (row.callback_status at delivered))
      (dispatch_merchant_callback env row.id false >> sync_if_succeeded env row)
      (sync_if_succeeded env row) w
      (after_dispatch (dispatch_merchant_callback env row.id false w) refl
        (dispatch-Dispatched env row.id false w row m e f))
      (Ends-Written env row m w.ledger _
        (sync_if_succeeded-Settled env row row m w.ledger w e refl f refl refl))
  where
    after_dispatch :
        (p : Result DispatchResult × World)
        → dispatch_merchant_callback env row.id false w ≡ p
        → Dispatched env row m (rest w) p
        → Written env row m w.ledger (continue (λ _. sync_if_succeeded env row) p)
    after_dispatch (ok (skipped d reason), w') q (o', found, count, same, others) =
        Ends-Written env row m w.ledger _ (
          sync_if_succeeded-Settled env row o' m w.ledger w' found same
            (subst (λ ms. find (λ x. str_eq x.id row.merchant_id) ms ≡ some m)
              (sym (ap (λ t. t.1) others)) f)
            (ap (λ t. t.2) others) (find_order-id row.id w' o' found))
    after_dispatch (ok (sent d s msg), w') q (o', a, found, others, p1, p2, p3, count, same, st) =
        Ends-Written env row m w.ledger _ (
          sync_if_succeeded-Settled env row o' m w.ledger w' found same
            (subst (λ ms. find (λ x. str_eq x.id row.merchant_id) ms ≡ some m)
              (sym (ap (λ t. t.1) others)) f)
            (ap (λ t. t.2) others) (find_order-id row.id w' o' found))
    after_dispatch (err x, w') q (o', text, target, now, found, others, count, same, e1, e2) =
        (o', text, target, now, found, same, ap (λ t. t.2) others, e1, e2)
