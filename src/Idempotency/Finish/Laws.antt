-- ===== src/Idempotency/Finish/Laws.antt =====
-- A command that was finished is answered from its row.
use nova_pay.Base.{
  ℕ, ◌≡◌, ◌≢◌, refl, ap, ◌∙◌, String, true, Option, some, List, ◌∷◌, if◌then◌else◌, Bool-cases, inl,
  inr, str_eq, eq_iff,
}
use nova_pay.Base.Json.{Json}
use nova_pay.Base.Rows.{find, find-update_if, update_where}
use nova_pay.Store.Monad.{ok}
use nova_pay.Callbacks.Dispatch.{present}
use nova_pay.Idempotency.{
  MerchantIdempotencyRecord, Table, Command, Times, replay, has_key, has_id, body_of, replayed,
  update_and_answer, answer,
}
use nova_pay.Idempotency.Begin.{
  begin_loop, Others, undisturbed, begin_round, begin_read, begin_existing, go_on,
}
use nova_pay.Idempotency.Finish.{
  finish_merchant_idempotency_success, finish, update_found, succeeded_row,
}

-- Once a command has ended well, the same request with its key, with no other one in between, is not
-- run again: it gets the stored HTTP status and body. The key and the id find the command's row.
pub finish-replay :
    (id : String) (c : Command) (t : Times) (after : Table → Table) (rest : List Others)
    (table : Table) (r : MerchantIdempotencyRecord) (now http_status : ℕ) (body : Json)
    (resource_type resource_id : Option String)
    → find (has_key c) table ≡ some r
    → find (has_id r.id) table ≡ some r
    → r.id ≢ ""
    → r.request_hash ≡ c.request_hash
    → (begin_loop id c t
        (undisturbed after ∷ rest)
        (finish_merchant_idempotency_success
          (some r.id)
          now
          http_status
          body
          resource_type
          resource_id
          table).1).0
      ≡ some (ok (replay c.key r.id http_status (body_of body)))
unfolding begin_loop begin_round begin_read begin_existing go_on update_and_answer answer
    finish_merchant_idempotency_success finish update_found succeeded_row replayed
finish-replay id c t after rest table r now http_status body resource_type resource_id e f ne h =
    rw (shown, f, by_key, same, by_id) refl
  where
    row : MerchantIdempotencyRecord
    row = succeeded_row now http_status body resource_type resource_id r

    done_table : Table
    done_table =
        update_where (has_id r.id) (succeeded_row now http_status body resource_type resource_id)
          table

    own : has_id r.id r ≡ true
    own = (eq_iff r.id r.id).1 refl

    same : str_eq r.request_hash c.request_hash ≡ true
    same = (eq_iff r.request_hash c.request_hash).1 h

    shown : present (some r.id) ≡ some r.id
    shown = elim (Bool-cases (str_eq r.id "")) [
      | inl q ↦ absurd (ne ((eq_iff r.id "").0 q))
      | inr q ↦ rw q refl
    ]

    chosen : (if has_id r.id r then row else r) ≡ row
    chosen = rw own refl

    by_key : find (has_key c) done_table ≡ some row
    by_key =
        find-update_if (has_key c) (has_id r.id)
          (succeeded_row now http_status body resource_type resource_id) table r (λ y. refl) e
        ∙ ap some chosen

    by_id : find (has_id r.id) done_table ≡ some row
    by_id =
        find-update_if (has_id r.id) (has_id r.id)
          (succeeded_row now http_status body resource_type resource_id) table r (λ y. refl) f
        ∙ ap some chosen
