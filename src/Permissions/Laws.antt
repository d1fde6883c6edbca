-- ===== src/Permissions/Laws.antt =====
-- The roles are nested.
use nova_pay.Base.{ℕ, ◌≤◌, ◌≡◌, true, arith}
use nova_pay.Permissions.{
  AdminRole, super_admin, ops_admin, finance_admin, viewer, AdminPermission, has_permission,
}

-- From the viewer to the super administrator.
abbrev pub level : AdminRole → ℕ
level viewer = 0
level finance_admin = 1
level ops_admin = 2
level super_admin = 3

finance_of :
    (p : AdminPermission) → has_permission viewer p ≡ true → has_permission finance_admin p ≡ true
unfolding has_permission
finance_of p h = ground arith

ops_of :
    (p : AdminPermission)
    → has_permission finance_admin p ≡ true
    → has_permission ops_admin p ≡ true
unfolding has_permission
ops_of p h = ground arith

super_of :
    (p : AdminPermission) → has_permission ops_admin p ≡ true → has_permission super_admin p ≡ true
unfolding has_permission
super_of p h = ground arith

-- The levels are nested: what a role may do, every role of a higher level may do.
pub has_permission_mono :
    (a b : AdminRole) (p : AdminPermission)
    → level a ≤ level b
    → has_permission a p ≡ true
    → has_permission b p ≡ true
has_permission_mono viewer viewer p l h = h
has_permission_mono viewer finance_admin p l h = finance_of p h
has_permission_mono viewer ops_admin p l h = ops_of p (finance_of p h)
has_permission_mono viewer super_admin p l h = super_of p (ops_of p (finance_of p h))
has_permission_mono finance_admin viewer p l h = absurd (omega arith)
has_permission_mono finance_admin finance_admin p l h = h
has_permission_mono finance_admin ops_admin p l h = ops_of p h
has_permission_mono finance_admin super_admin p l h = super_of p (ops_of p h)
has_permission_mono ops_admin viewer p l h = absurd (omega arith)
has_permission_mono ops_admin finance_admin p l h = absurd (omega arith)
has_permission_mono ops_admin ops_admin p l h = h
has_permission_mono ops_admin super_admin p l h = super_of p h
has_permission_mono super_admin viewer p l h = absurd (omega arith)
has_permission_mono super_admin finance_admin p l h = absurd (omega arith)
has_permission_mono super_admin ops_admin p l h = absurd (omega arith)
has_permission_mono super_admin super_admin p l h = h
