-- ===== src/Idempotency/Finish.antt =====
-- lib/idempotency/service.ts: recording how a command ended.
pub mod Laws
use nova_pay.Base.{ℕ, String, Option, none, some, or_else, get_or, if◌then◌else◌}
use nova_pay.Base.Rows.{find, update_where}
use nova_pay.Base.Json.{Json}
use nova_pay.Store.World.{Error, record_missing}
use nova_pay.Store.Monad.{Result, ok, err}
use nova_pay.Callbacks.Dispatch.{present}
use nova_pay.Idempotency.{
  MerchantIdempotencyRecord, Table, has_id, IdempotencyStatus, done, failed_final, failed_retryable,
}

unfoldable pub update_found :
    (MerchantIdempotencyRecord → MerchantIdempotencyRecord)
    → String
    → Option MerchantIdempotencyRecord
    → Table
    → Result (Unit {0}) × Table
update_found f id none table = (err record_missing, table)
update_found f id (some r) table = (ok tt, update_where (has_id id) f table)

-- `if (!input.recordId) return`, and else the update of that row.
unfoldable pub finish :
    (MerchantIdempotencyRecord → MerchantIdempotencyRecord)
    → Option String
    → Table
    → Result (Unit {0}) × Table
unfolding update_found
finish f none table = (ok tt, table)
finish f (some id) table = update_found f id (find (has_id id) table) table

unfoldable pub succeeded_row :
    ℕ
    → ℕ
    → Json
    → Option String
    → Option String
    → MerchantIdempotencyRecord
    → MerchantIdempotencyRecord
succeeded_row now http_status body resource_type resource_id r = record r {
  status = done;
  http_status = some http_status;
  response_body = body;
  resource_type = resource_type;
  resource_id = resource_id;
  error_code = none;
  error_message = none;
  lease_expires_at = none;
  completed_at = some now;
}

unfoldable pub finish_merchant_idempotency_success :
    Option String → ℕ → ℕ → Json → Option String → Option String → Table → Result (Unit {0}) × Table
unfolding finish
finish_merchant_idempotency_success record_id now http_status body resource_type resource_id =
    finish (succeeded_row now http_status body resource_type resource_id) (present record_id)

unfoldable pub finish_merchant_idempotency_final_error :
    Option String → ℕ → ℕ → Json → Option String → Option String → Table → Result (Unit {0}) × Table
unfolding finish
finish_merchant_idempotency_final_error record_id now http_status body error_code error_message =
    finish
      (λ r. record r {
        status = failed_final;
        http_status = some http_status;
        response_body = body;
        error_code = error_code;
        error_message = error_message;
        lease_expires_at = none;
        completed_at = some now;
      })
      (present record_id)

unfoldable pub finish_merchant_idempotency_retryable_error :
    Option String
    → ℕ
    → Option ℕ
    → Json
    → Option String
    → Option String
    → Table
    → Result (Unit {0}) × Table
unfolding finish
finish_merchant_idempotency_retryable_error record_id now http_status body error_code
      error_message =
    finish
      (λ r. record r {
        status = failed_retryable;
        http_status = some (get_or http_status 500);
        response_body = body;
        error_code = error_code;
        error_message = error_message;
        lease_expires_at = none;
        completed_at = some now;
      })
      (present record_id)
