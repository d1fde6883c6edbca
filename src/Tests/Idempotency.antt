-- ===== src/Tests/Idempotency.antt =====
-- Commands on a table of one row.
use nova_pay.Base.{◌≡◌, refl, true, none, some, is_some, [], ◌∷◌, arith, str_eq, if◌then◌else◌}
use nova_pay.Base.Rows.{find, count_where}
use nova_pay.Base.Json.{null, str}
use nova_pay.Store.Monad.{ok}
use nova_pay.Idempotency.{
  MerchantIdempotencyRecord, Command, Times, times_at, created_row, replay, in_progress, conflict,
  body_of,
}
use nova_pay.Idempotency.Begin.{begin_merchant_idempotency_command, begin_loop, Others, undisturbed}
use nova_pay.Idempotency.Begin.Laws.{IsUnique, begin-total, begin-refuses}
use nova_pay.Idempotency.Finish.{finish_merchant_idempotency_success}
use nova_pay.Idempotency.Finish.Laws.{finish-replay}

abbrev command : Command
command = record {
  merchant_id = "m1";
  api_credential_id = none;
  scope = "orders";
  key = "k1";
  request_hash = "h1";
  request_summary = null;
}

abbrev row : MerchantIdempotencyRecord
unfolding created_row
row = created_row "i1" command (times_at 1000 30 7)

abbrev retry : Times
retry = times_at 2000 30 7

-- Another request creates the row of the key between the read and the write.
abbrev rival : Others
rival = record { before_write = λ t. row ∷ t; after_write = λ t. t }

begin-total_example :
    is_some
      (begin_merchant_idempotency_command "i2"
        (some "k1")
        (λ k. record command { key = k })
        retry
        (rival ∷ undisturbed (λ t. t) ∷ [])
        []).0
    ≡ true
begin-total_example =
    begin-total "i2" (some "k1") (λ k. record command { key = k }) retry rival
      (undisturbed (λ t. t)) [] [] (λ k x h. h)

one_row-IsUnique : IsUnique (row ∷ [])
unfolding count_where
one_row-IsUnique id = ground arith

begin-refuses_example :
    (begin_loop "i2" command retry (undisturbed (λ t. t) ∷ []) (row ∷ [])).0
    ≡ some (ok (if str_eq row.request_hash "h1" then in_progress "k1" else conflict "k1"))
unfolding find row
begin-refuses_example =
    begin-refuses "i2" command retry (λ t. t) [] (row ∷ []) row 31000 one_row-IsUnique refl refl
      refl (omega arith)

finish-replay_example :
    (begin_loop "i2" command retry
      (undisturbed (λ t. t) ∷ [])
      (finish_merchant_idempotency_success
        (some "i1")
        1500
        201
        (str "created")
        none
        none
        (row ∷ [])).1).0
    ≡ some (ok (replay "k1" "i1" 201 (body_of (str "created"))))
unfolding find row
finish-replay_example =
    finish-replay "i2" command retry (λ t. t) [] (row ∷ []) row 1500 201 (str "created") none none
      refl refl (λ e. cc) refl
