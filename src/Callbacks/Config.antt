-- ===== src/Callbacks/Config.antt =====
-- The settings of lib/callbacks/service.ts, with their defaults.
use nova_pay.Base.{ℕ, ◌+◌, ◌≤◌, ◌<◌, String, Option, none, some, str_eq, ltb, if◌then◌else◌, arith}
use nova_pay.Base.Int.{ℤ, pos, negsuc}
use nova_pay.Store.World.{
  Env, callback_timeout_ms, callback_retry_interval_seconds, callback_max_attempts,
  callback_worker_batch_size, callback_worker_interval_ms,
}

abbrev positive_or : Option ℤ → ℕ → ℕ
positive_or none fallback = fallback
positive_or (some (pos n)) fallback = if ltb 0 n then n else fallback
positive_or (some (negsuc n)) fallback = fallback

unfoldable pub parse_positive_integer : Env → Option String → ℕ → ℕ
parse_positive_integer env none fallback = fallback
parse_positive_integer env (some raw) fallback =
    if str_eq raw "" then fallback else positive_or (env.integer_of raw) fallback

unfoldable pub get_processing_lease_ms : ℕ → ℕ
get_processing_lease_ms timeout_ms =
    if ltb (timeout_ms + 5000) 15000 then 15000 else timeout_ms + 5000

pub record CallbackRuntimeConfig : Type 0 where
  pub timeout_ms : ℕ
  pub retry_interval_seconds : ℕ
  pub max_attempts : ℕ
  pub processing_lease_ms : ℕ

unfoldable pub get_callback_runtime_config : Env → CallbackRuntimeConfig
get_callback_runtime_config env =
    let timeout_ms = parse_positive_integer env (env.config callback_timeout_ms) 10000 in
    record {
      timeout_ms = timeout_ms;
      retry_interval_seconds =
          parse_positive_integer env (env.config callback_retry_interval_seconds) 60;
      max_attempts = parse_positive_integer env (env.config callback_max_attempts) 6;
      processing_lease_ms = get_processing_lease_ms timeout_ms;
    }

pub record CallbackWorkerConfig : Type 0 where
  pub batch_size : ℕ
  pub interval_ms : ℕ

unfoldable pub get_callback_worker_config : Env → CallbackWorkerConfig
get_callback_worker_config env = record {
  batch_size = parse_positive_integer env (env.config callback_worker_batch_size) 20;
  interval_ms = parse_positive_integer env (env.config callback_worker_interval_ms) 5000;
}

-- A setting with a positive default is positive, whatever is stored.
pub parse_positive_integer_pos :
    (env : Env) (raw : Option String) (fallback : ℕ)
    → 0 < fallback
    → 0 < parse_positive_integer env raw fallback
unfolding parse_positive_integer
parse_positive_integer_pos env none fallback h = h
parse_positive_integer_pos env (some raw) fallback h = ground arith

-- The lease of a dispatch outlasts its request by five seconds, and is never under fifteen.
pub get_processing_lease_ms_bounds :
    (t : ℕ) → (t + 5000 ≤ get_processing_lease_ms t) × (15000 ≤ get_processing_lease_ms t)
unfolding get_processing_lease_ms
get_processing_lease_ms_bounds t = ground arith
