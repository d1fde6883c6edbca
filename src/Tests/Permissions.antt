-- ===== src/Tests/Permissions.antt =====
-- A permission of two roles.
use nova_pay.Base.{◌≡◌, refl, true, arith}
use nova_pay.Permissions.{finance_admin, super_admin, finance_write, has_permission}
use nova_pay.Permissions.Laws.{has_permission_mono}

has_permission_mono_example : has_permission super_admin finance_write ≡ true
unfolding has_permission
has_permission_mono_example =
    has_permission_mono finance_admin super_admin finance_write (omega arith) refl
