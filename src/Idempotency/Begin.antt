-- ===== src/Idempotency/Begin.antt =====
-- lib/idempotency/service.ts, beginMerchantIdempotencyCommand. Other requests may commit between a read
-- of the table and the write that follows it, and between a refused write and the next read.
pub mod Laws
use nova_pay.Base.{
  ℕ, String, Bool, true, false, not, Option, none, some, is_some, List, [], ◌∷◌, ◌++◌, str_eq, ◌==◌,
  if◌then◌else◌,
}
use nova_pay.Base.Rows.{find, update_where, count_where}
use nova_pay.Store.Monad.{Result, ok, err}
use nova_pay.Callbacks.Dispatch.{present}
use nova_pay.Idempotency.{
  MerchantIdempotencyRecord, Table, Command, Times, Step, IdempotencyBeginResult, disabled, started,
  conflict, in_progress, has_key, created_row, is_finished, can_claim, claimed, replayed, seen,
  update_and_answer, replay_of,
}

-- `updateMany`, and the answer by the number of rows that it changed.
unfoldable pub claim_existing : Command → Times → MerchantIdempotencyRecord → Table → Step
claim_existing c t r table =
    if count_where (can_claim r.id c t.now) table == 1
    then (
      some (ok (started c.key r.id)),
      update_where (can_claim r.id c t.now) (claimed c t r) table,
    )
    else update_and_answer (seen t.now) (λ x. in_progress c.key) r.id
        (update_where (can_claim r.id c t.now) (claimed c t r) table)

unfoldable pub begin_existing : Command → Times → MerchantIdempotencyRecord → Table → Step
begin_existing c t r table =
    if not (str_eq r.request_hash c.request_hash)
    then update_and_answer (seen t.now) (λ x. conflict c.key) r.id table
    else if is_finished r.status
    then update_and_answer (replayed t) (replay_of c.key) r.id table
    else claim_existing c t r table

-- `create`: the unique index refuses a second row with the key, and then the loop goes round again.
unfoldable pub begin_new : String → Command → Times → Table → Step
begin_new id c t table =
    if is_some (find (has_key c) table)
    then (none, table)
    else (some (ok (started c.key id)), table ++ created_row id c t ∷ [])

unfoldable pub begin_read :
    String → Command → Times → Option MerchantIdempotencyRecord → Table → Step
begin_read id c t none table = begin_new id c t table
begin_read id c t (some r) table = begin_existing c t r table

-- One round of the loop. `id` is the one that a new row would get.
unfoldable pub begin_round : String → Command → Times → (Table → Table) → Table → Step
begin_round id c t meanwhile table = begin_read id c t (find (has_key c) table) (meanwhile table)

unfoldable pub go_on : Step → (Table → Step) → Step
go_on (none, table) again = again table
go_on (some r, table) again = (some r, table)

-- What other requests do to the table during a round: before its write, and after it.
pub record Others : Type 0 where
  pub before_write : Table → Table
  pub after_write : Table → Table

-- Nothing happens before the write.
abbrev pub undisturbed : (Table → Table) → Others
undisturbed after = record { before_write = λ x. x; after_write = after }

-- The loop, one round for each element of the list; `none` is a loop that is not done by then.
unfoldable pub begin_loop : String → Command → Times → List Others → Table → Step
begin_loop id c t [] table = (none, table)
begin_loop id c t (others ∷ rest) table =
    go_on (begin_round id c t others.before_write table)
      λ left. begin_loop id c t rest (others.after_write left)

unfoldable pub begin_keyed :
    String → (String → Command) → Times → List Others → Table → Option String → Step
begin_keyed id command t others table none = (some (ok disabled), table)
begin_keyed id command t others table (some key) = begin_loop id (command key) t others table

-- A call without a key, or with an empty one, is not kept track of. `command` is the rest of the input.
unfoldable pub begin_merchant_idempotency_command :
    String → Option String → (String → Command) → Times → List Others → Table → Step
unfolding begin_keyed
begin_merchant_idempotency_command id key command t others table =
    begin_keyed id command t others table (present key)
