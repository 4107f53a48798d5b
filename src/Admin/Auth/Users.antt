-- ===== src/Admin/Auth/Users.antt =====
-- src/database/ConfigRepository.cpp: the table `admin_users`, as its rows in the order of
-- insertion, and the three statements on it. SQLite itself is taken not to fail.
use model_lib.Base.Bytes.{Bytes, equal, to_lower}
use model_lib.Base.{
  ℕ, Bool, List, [], ◌∷◌, ◌++◌, Option, none, some, if◌then◌else◌, length, map, is_some,
}

-- `AdminUserRecord`, less the id that the table assigns.
pub record AdminUser : Type 0 where
  pub username : Bytes
  pub password_salt : Bytes
  pub password_hash : Bytes
  pub password_iterations : ℕ

-- `COLLATE NOCASE`, which folds the ASCII letters.
unfoldable pub same_name : Bytes → Bytes → Bool
same_name a b = equal (map to_lower a) (map to_lower b)

unfoldable pub admin_user_count : List AdminUser → ℕ
admin_user_count users = length users

unfoldable pub find_admin_user : Bytes → List AdminUser → Option AdminUser
find_admin_user name [] = none
find_admin_user name (u ∷ us) =
    if same_name u.username name then some u else find_admin_user name us

-- `none` when the name is taken: the column is UNIQUE.
unfoldable pub create_admin_user : AdminUser → List AdminUser → Option (List AdminUser)
create_admin_user u us =
    if is_some (find_admin_user u.username us) then none else some (us ++ u ∷ [])
