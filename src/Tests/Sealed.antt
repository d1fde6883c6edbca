-- ===== src/Tests/Sealed.antt =====
-- A dispatch for a merchant whose secret does not decrypt.
use nova_pay.Base.{◌≡◌, refl, true, map, ◌∷◌, []}
use nova_pay.Base.Rows.{find, update_where, count_where}
use nova_pay.Orders.Status.{waiting, in_flight}
use nova_pay.EasyPay.Marker.{is_easy_pay_order}
use nova_pay.Store.Monad.{err}
use nova_pay.Store.Sample.{env, world}
use nova_pay.Store.World.{Env, threw, thrown}
use nova_pay.Callbacks.Claim.{claim_where, claim_merchant_callback_dispatch}
use nova_pay.Callbacks.Plan.{resolve_callback_target, build_plan}
use nova_pay.Callbacks.Dispatch.{
  dispatch_merchant_callback, dispatch_to, dispatch_found, attempt_callback, attempt_at,
  claim_and_deliver, plan_and_deliver,
}
use nova_pay.Callbacks.Config.{get_callback_runtime_config}

abbrev sealed : Env
sealed = record env { reveal_stored_secret = λ s. threw "bad payload" }

-- It throws; the second order is left in flight, and no attempt is recorded.
sealed_dispatch :
    let (r, w') = dispatch_merchant_callback sealed "o2" true world in
    (r ≡ err (thrown "bad payload"))
    × (map (λ o. o.callback_status) w'.orders ≡ waiting ∷ in_flight ∷ [])
    × (w'.attempts ≡ [])
unfolding find update_where count_where is_easy_pay_order claim_where
    claim_merchant_callback_dispatch resolve_callback_target build_plan dispatch_merchant_callback
    dispatch_to dispatch_found attempt_callback attempt_at claim_and_deliver plan_and_deliver
    get_callback_runtime_config
sealed_dispatch = (refl, refl, refl)
