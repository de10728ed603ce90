-- ===== src/Auth/Load.antt =====
-- `Load` of internal/arcade/auth.go: the accounts that the panel starts with. The audit log, which
-- `Load` opens as well, is not modelled.
use teploy_arcade.Prelude.{
  nat_key, Bytes, ℕ, ◌*◌, ◌≡◌, Bool, true, false, not, ◌&&◌, ◌||◌, Option, none, some, List, [],
  ◌∷◌, leb, if◌then◌else◌, ◌==◌, length, contains, Assoc, lookup, insert, string_key,
}
use teploy_arcade.Text.{is_digit, to_lower, trim_space, bytes_key}
use teploy_arcade.Auth.State.{User, Auth, role_rank, is_empty}
use teploy_arcade.Auth.Revoke.{IfAny}

-- The file of users: what reading it gives. `contents none` is a file that is not a JSON list of
-- users; a record `none` is a null.
pub data UsersFile : Type 0 where
  absent unreadable : UsersFile
  contents : Option (List (Option User)) → UsersFile

abbrev is_hex : ℕ → Bool
is_hex c = is_digit c || (leb 97 c && leb c 102) || (leb 65 c && leb c 70)

unfoldable pub all_hex : Bytes → Bool
all_hex [] = true
all_hex (c ∷ s) = is_hex c && all_hex s

-- hex.DecodeString gives `n` bytes and no error.
unfoldable pub is_hex_of : ℕ → Bytes → Bool
unfolding all_hex
is_hex_of n s = all_hex s && length s == 2 * n

-- `validateUserRecord`, of a record that is not a null.
unfoldable pub valid_user : User → Bool
unfolding is_hex_of role_rank
valid_user u =
    not (is_empty (trim_space u.name))
    && not (role_rank u.role == 0)
    && is_hex_of 16 u.salt
    && is_hex_of 32 u.hash

unfoldable pub records_ok : List Bytes → List (Option User) → Bool
unfolding valid_user
records_ok seen [] = true
records_ok seen (none ∷ records) = false
records_ok seen (some u ∷ records) =
    valid_user u
    && not (contains seen (to_lower u.name))
    && records_ok (to_lower u.name ∷ seen) records

unfoldable pub insert_all : List (Option User) → Assoc Bytes User → Assoc Bytes User
insert_all [] users = users
insert_all (none ∷ records) users = insert_all records users
insert_all (some u ∷ records) users = insert_all records (insert (to_lower u.name) u users)

-- `none` where the panel refuses to start.
unfoldable pub load_users : UsersFile → Auth → Option Auth
unfolding records_ok insert_all
load_users absent a = some (record a { enabled = not (is_empty a.users) })
load_users unreadable a = none
load_users (contents none) a = none
load_users (contents (some records)) a =
    let users = insert_all records a.users in
    if records_ok [] records
    then some (record a { users = users; enabled = not (is_empty users) })
    else none

-- What a loaded table has for a key: nothing, or a valid record whose name has that key.
abbrev pub IsLoaded : Assoc Bytes User → Bytes → Type 0
IsLoaded users key = IfAny (λ u. (valid_user u ≡ true) × (key ≡ to_lower u.name)) (lookup key users)
