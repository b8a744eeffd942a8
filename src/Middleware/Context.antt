-- ===== src/Middleware/Context.antt =====
-- The request context of pkg/middleware/auth.go: the values under `user_id` and `role`.
use beer_avaliation_api.Base.{
  String, Bool, true, false, Option, none, some, if◌then◌else◌, str_eq, ◌≡◌, ◌↔◌, inl, inr, arith,
  eq_iff, Option-cases,
}

pub record Context : Type 0 where
  pub user_id : Option String
  pub role : Option String

abbrev pub background : Context
background = record { user_id = none; role = none }

-- `UserIDFromContext`: the value and whether it is there.
abbrev pub user_id_from_context : Context → Option String
user_id_from_context ctx = ctx.user_id

-- `RoleFromContext`
abbrev pub role_from_context : Context → Option String
role_from_context ctx = ctx.role

-- `WithUserID`: an empty role is not stored.
unfoldable pub with_user_id : Context → String → String → Context
with_user_id ctx user_id role =
    let named : Context = record ctx { user_id = some user_id } in
    if str_eq role "" then named else record named { role = some role }

-- `IsAdmin`
unfoldable pub is_admin : Context → Bool
is_admin ctx = elim ctx.role [ none ↦ false | some role ↦ str_eq role "admin" ]

pub is_admin_iff : (ctx : Context) → (is_admin ctx ≡ true) ↔ (ctx.role ≡ some "admin")
unfolding is_admin
is_admin_iff ctx = elim (Option-cases ctx.role) [
  | inl e ↦ ground (arith, e)
  | inr (role, e) ↦ ground (arith, e, eq_iff role "admin")
]
