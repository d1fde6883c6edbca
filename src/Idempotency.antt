-- ===== src/Idempotency.antt =====
-- lib/idempotency/service.ts: a merchant's command runs once per Idempotency-Key. The table is a list
-- of rows, of which the unique index (merchant, scope, key) lets one have a key.
pub mod Begin
pub mod Finish
use Prim.Native.String
use nova_pay.Base.{
  ℕ, suc, ◌+◌, ◌*◌, String, Bool, true, false, not, ◌&&◌, ◌||◌, Option, none, some, or_else, get_or,
  List, [], ◌∷◌, ◌++◌, str_eq, leb, ltb, ◌==◌, if◌then◌else◌,
}
use nova_pay.Base.Rows.{find, update_where, count_where}
use nova_pay.Base.Json.{Json, null, obj, end}
use nova_pay.Store.World.{Error, record_missing, app, invalid_idempotency_key}
use nova_pay.Store.Monad.{Result, ok, err}
use nova_pay.Callbacks.Dispatch.{present}

pub data IdempotencyStatus : Type 0 where
  in_progress_status done failed_final failed_retryable : IdempotencyStatus

pub record MerchantIdempotencyRecord : Type 0 where
  pub id : String
  pub merchant_id : String
  pub api_credential_id : Option String
  pub scope : String
  pub idempotency_key : String
  pub request_hash : String
  pub request_summary : Json
  pub status : IdempotencyStatus
  pub http_status : Option ℕ
  pub response_body : Json
  pub error_code : Option String
  pub error_message : Option String
  pub resource_type : Option String
  pub resource_id : Option String
  pub lease_expires_at : Option ℕ
  pub completed_at : Option ℕ
  pub last_seen_at : ℕ
  pub expires_at : ℕ
  pub replay_count : ℕ

abbrev pub Table : Type 0
Table = List MerchantIdempotencyRecord

-- A request, with the key it gives. `trimmed_length` is `key.length`, in UTF-16 units.
unfoldable pub read_idempotency_key :
    (String → String) → (String → ℕ) → Option String → Result (Option String)
read_idempotency_key trim utf16_length none = ok none
read_idempotency_key trim utf16_length (some raw) =
    let key = trim raw in
    if str_eq key "" || ltb 255 (utf16_length key)
    then err (app invalid_idempotency_key 400)
    else ok (some key)

pub record Command : Type 0 where
  pub merchant_id : String
  pub api_credential_id : Option String
  pub scope : String
  pub key : String
  pub request_hash : String
  pub request_summary : Json

-- When the command begins, when its lease ends and when its row may be dropped.
pub record Times : Type 0 where
  pub now : ℕ
  pub lease : ℕ
  pub retention : ℕ

-- In milliseconds, from the settings in seconds and in days.
abbrev pub times_at : ℕ → ℕ → ℕ → Times
times_at now lease_seconds retention_days = record {
  now = now;
  lease = now + lease_seconds * 1000;
  retention = now + retention_days * 86400000;
}

pub data IdempotencyBeginResult : Type 0 where
  disabled : IdempotencyBeginResult
  started : String → String → IdempotencyBeginResult
  replay : String → String → ℕ → Json → IdempotencyBeginResult
  conflict : String → IdempotencyBeginResult
  in_progress : String → IdempotencyBeginResult

abbrev pub has_key : Command → MerchantIdempotencyRecord → Bool
has_key c r =
    str_eq r.merchant_id c.merchant_id && (str_eq r.scope c.scope && str_eq r.idempotency_key c.key)

abbrev pub has_id : String → MerchantIdempotencyRecord → Bool
has_id id r = str_eq r.id id

unfoldable pub created_row : String → Command → Times → MerchantIdempotencyRecord
created_row id c t = record {
  id = id;
  merchant_id = c.merchant_id;
  api_credential_id = c.api_credential_id;
  scope = c.scope;
  idempotency_key = c.key;
  request_hash = c.request_hash;
  request_summary = c.request_summary;
  status = in_progress_status;
  http_status = none;
  response_body = null;
  error_code = none;
  error_message = none;
  resource_type = none;
  resource_id = none;
  lease_expires_at = some t.lease;
  completed_at = none;
  last_seen_at = t.now;
  expires_at = t.retention;
  replay_count = 0;
}

abbrev pub is_finished : IdempotencyStatus → Bool
is_finished in_progress_status = false
is_finished done = true
is_finished failed_final = true
is_finished failed_retryable = false

abbrev pub is_free : IdempotencyStatus → Option ℕ → ℕ → Bool
is_free in_progress_status none now = true
is_free in_progress_status (some lease) now = leb lease now
is_free done lease now = false
is_free failed_final lease now = false
is_free failed_retryable lease now = true

-- The condition of the claiming `updateMany`.
unfoldable pub can_claim : String → Command → ℕ → MerchantIdempotencyRecord → Bool
can_claim id c now r =
    str_eq r.id id
    && (str_eq r.request_hash c.request_hash && is_free r.status r.lease_expires_at now)

unfoldable pub claimed :
    Command
    → Times
    → MerchantIdempotencyRecord
    → MerchantIdempotencyRecord
    → MerchantIdempotencyRecord
claimed c t existing r = record r {
  status = in_progress_status;
  api_credential_id = or_else c.api_credential_id existing.api_credential_id;
  request_summary = c.request_summary;
  http_status = none;
  response_body = null;
  error_code = none;
  error_message = none;
  resource_type = none;
  resource_id = none;
  lease_expires_at = some t.lease;
  completed_at = none;
  last_seen_at = t.now;
  expires_at = t.retention;
}

unfoldable pub replayed : Times → MerchantIdempotencyRecord → MerchantIdempotencyRecord
replayed t r = record r {
  replay_count = suc r.replay_count;
  last_seen_at = t.now;
  expires_at = t.retention;
}

abbrev pub seen : ℕ → MerchantIdempotencyRecord → MerchantIdempotencyRecord
seen now r = record r { last_seen_at = now }

abbrev pub Step : Type 0
Step = Option (Result IdempotencyBeginResult) × Table

-- `update` of one row by its id, then an answer made from the new row.
unfoldable pub answer :
    (MerchantIdempotencyRecord → MerchantIdempotencyRecord)
    → (MerchantIdempotencyRecord → IdempotencyBeginResult)
    → String
    → Option MerchantIdempotencyRecord
    → Table
    → Step
answer f to id none t = (some (err record_missing), t)
answer f to id (some r) t = (some (ok (to (f r))), update_where (has_id id) f t)

unfoldable pub update_and_answer :
    (MerchantIdempotencyRecord → MerchantIdempotencyRecord)
    → (MerchantIdempotencyRecord → IdempotencyBeginResult)
    → String
    → Table
    → Step
unfolding answer
update_and_answer f to id t = answer f to id (find (has_id id) t) t

-- `replayed.responseBody ?? {}`
abbrev pub body_of : Json → Json
body_of null = obj end
body_of j = j

abbrev pub replay_of : String → MerchantIdempotencyRecord → IdempotencyBeginResult
replay_of key r = replay key r.id (get_or r.http_status 200) (body_of r.response_body)
