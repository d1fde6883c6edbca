-- ===== src/Permissions.antt =====
-- lib/rbac.ts: what the roles of the console's users may do.
pub mod Laws
use nova_pay.Base.{ℕ, Bool, true, false, ◌||◌, List, [], ◌∷◌, ◌==◌}

pub data AdminRole : Type 0 where
  super_admin ops_admin finance_admin viewer : AdminRole

pub data AdminPermission : Type 0 where
  dashboard_view finance_read finance_write merchant_read merchant_write : AdminPermission
  merchant_credential_read merchant_credential_write binding_read binding_write : AdminPermission
  plugin_marketplace_read plugin_marketplace_write : AdminPermission
  system_config_read system_config_write order_read order_write : AdminPermission
  callback_read callback_write audit_read admin_user_read admin_user_write : AdminPermission

abbrev pub number : AdminPermission → ℕ
number dashboard_view = 0
number finance_read = 1
number finance_write = 2
number merchant_read = 3
number merchant_write = 4
number merchant_credential_read = 5
number merchant_credential_write = 6
number binding_read = 7
number binding_write = 8
number plugin_marketplace_read = 9
number plugin_marketplace_write = 10
number system_config_read = 11
number system_config_write = 12
number order_read = 13
number order_write = 14
number callback_read = 15
number callback_write = 16
number audit_read = 17
number admin_user_read = 18
number admin_user_write = 19

abbrev all_permissions : List AdminPermission
all_permissions =
    dashboard_view ∷ finance_read ∷ finance_write ∷ merchant_read ∷ merchant_write
    ∷ merchant_credential_read ∷ merchant_credential_write ∷ binding_read ∷ binding_write
    ∷ plugin_marketplace_read ∷ plugin_marketplace_write ∷ system_config_read ∷ system_config_write
    ∷ order_read ∷ order_write ∷ callback_read ∷ callback_write ∷ audit_read ∷ admin_user_read
    ∷ admin_user_write ∷ []

-- ROLE_PERMISSIONS
abbrev get_role_permissions : AdminRole → List AdminPermission
get_role_permissions super_admin = all_permissions
get_role_permissions ops_admin =
    dashboard_view ∷ finance_read ∷ finance_write ∷ merchant_read ∷ merchant_write
    ∷ merchant_credential_read ∷ merchant_credential_write ∷ binding_read ∷ binding_write
    ∷ plugin_marketplace_read ∷ plugin_marketplace_write ∷ order_read ∷ order_write ∷ callback_read
    ∷ callback_write ∷ audit_read ∷ []
get_role_permissions finance_admin =
    dashboard_view ∷ finance_read ∷ finance_write ∷ merchant_read ∷ binding_read
    ∷ plugin_marketplace_read ∷ order_read ∷ callback_read ∷ audit_read ∷ []
get_role_permissions viewer =
    dashboard_view ∷ merchant_read ∷ binding_read ∷ plugin_marketplace_read ∷ order_read
    ∷ callback_read ∷ []

abbrev includes : List AdminPermission → AdminPermission → Bool
includes [] p = false
includes (q ∷ qs) p = number q == number p || includes qs p

unfoldable pub has_permission : AdminRole → AdminPermission → Bool
has_permission role permission = includes (get_role_permissions role) permission
