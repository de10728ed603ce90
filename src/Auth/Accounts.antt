-- ===== src/Auth/Accounts.antt =====
-- Accounts in internal/arcade/auth.go: creation, deletion and the change of a password. The hash is
-- computed with no lock held, so an operation that hashes first and commits later is two functions,
-- and other calls may change the state between them.
use teploy_arcade.Prelude.{
  Bytes, ℕ, suc, String, Bool, true, false, not, ◌&&◌, ◌||◌, Option, none, some, [], ◌∷◌, ltb, leb,
  if◌then◌else◌, ◌==◌, length, retain, Assoc, lookup, remove, insert, string_key,
}
use teploy_arcade.Text.{to_lower, bytes_key}
use teploy_arcade.Auth.State.{
  User, Session, Auth, Reply, equal_fold, is_empty, commit_users, check_new_user, short_password,
  long_password, no_entropy, already_claimed, user_exists, save_failed, no_such_user,
  wrong_password, same_password, password_moved, last_admin, ok, refused,
}

-- The record of a new account; the first administrator chose the password and need not change it.
unfoldable pub new_user : Bytes → String → Bytes → Bytes → ℕ → Bool → User
new_user name role salt hash now first = record {
  name = name;
  role = role;
  salt = salt;
  hash = hash;
  created_at = now;
  must_change = not first;
}

-- What the commit of a set of users answers, with `done` applied to the state that was published.
unfoldable pub committed {ℓ} :
    {A : Type ℓ} → A → (Auth → Auth) → Option Auth → Auth → Reply A × Auth
committed x done none a = (refused save_failed, a)
committed x done (some b) a = (ok x, done b)

-- `createLocked`.
unfoldable pub create_locked :
    Bool → ℕ → Bytes → String → Bytes → Bytes → Bool → Auth → Reply User × Auth
unfolding new_user commit_users committed
create_locked saved now name role salt hash first a =
    let key = to_lower name in
    let u = new_user name role salt hash now first in
    elim (lookup key a.users) [
      | some _ ↦ (refused user_exists, a)
      | none ↦ committed u (λ b. b) (commit_users saved (insert key u a.users) a) a
    ]

-- `salt` is what `randomHex` returned. `kdf` stands for `hash_password mac`: what is stated holds for
-- any function of the password and the salt.
module _ (kdf : Bytes → Bytes → Bytes) where
  unfoldable pub create_user :
      Bool → ℕ → Option Bytes → Bytes → Bytes → String → Auth → Reply User × Auth
  unfolding create_locked check_new_user
  create_user saved now salt name password role a = elim (check_new_user name password role) [
    | some why ↦ (refused why, a)
    | none ↦ elim salt [
      | none ↦ (refused no_entropy, a)
      | some s ↦ create_locked saved now name role s (kdf password s) false a
    ]
  ]

  unfoldable pub create_first_user :
      Bool → ℕ → Option Bytes → Bytes → Bytes → Auth → Reply User × Auth
  unfolding create_locked check_new_user
  create_first_user saved now salt name password a = elim (check_new_user name password "admin") [
    | some why ↦ (refused why, a)
    | none ↦ elim salt [
      | none ↦ (refused no_entropy, a)
      | some s ↦
          if not (is_empty a.users)
          then (refused already_claimed, a)
          else create_locked saved now name "admin" s (kdf password s) true a
    ]
  ]

  created : Reply User → Reply Bool
  created (ok u) = ok true
  created (refused why) = refused why

  -- `EnsureAdmin`: whether it created an account.
  unfoldable pub ensure_admin : Bool → ℕ → Option Bytes → Bytes → Bytes → Auth → Reply Bool × Auth
  unfolding create_first_user created
  ensure_admin saved now salt name password a =
      let name' = if is_empty name then 97 ∷ 100 ∷ 109 ∷ 105 ∷ 110 ∷ [] else name in
      let (r, b) = create_first_user saved now salt name' password a in
      if is_empty password || not (is_empty a.users) then (ok false, a) else (created r, b)

  -- `SetPassword` up to its second lock: what it commits, from the record it saw.
  unfoldable pub prepare_password :
      Option Bytes → Bytes → Bytes → Bytes → Bool → Auth → Reply (User × Bytes × Bytes)
  prepare_password salt name current next by_admin a =
      if ltb (length next) 8
      then refused short_password
      else if ltb 1024 (length next)
      then refused long_password
      else elim (lookup (to_lower name) a.users) [
        | none ↦ refused no_such_user
        | some u ↦
            if not by_admin && not (u.hash == kdf current u.salt)
            then refused wrong_password
            else if not by_admin && current == next
            then refused same_password
            else elim salt [ none ↦ refused no_entropy | some s ↦ ok (u, s, kdf next s) ]
      ]

-- The sessions that stay when the password of `user` changed and `keep` is the caller's own.
unfoldable pub kept_sessions : Bytes → String → Assoc String Session → Assoc String Session
kept_sessions user keep = retain (λ e. not (equal_fold e.1.user user && not (e.0 == keep)))

-- `SetPassword` from its second lock on, on the state of that time.
unfoldable pub commit_password :
    Bool → Bytes → String → Bool → (User × Bytes × Bytes) → Auth → Reply (Unit {0}) × Auth
unfolding commit_users committed kept_sessions
commit_password saved name keep by_admin (snap, salt, hash) a =
    let key = to_lower name in
    elim (lookup key a.users) [
      | none ↦ (refused no_such_user, a)
      | some u ↦
          if not by_admin && not (u.salt == snap.salt && u.hash == snap.hash)
          then (refused password_moved, a)
          else committed tt (λ b. record b { sessions = kept_sessions u.name keep b.sessions })
              (commit_users saved
                (insert key (record u { salt = salt; hash = hash; must_change = by_admin }) a.users)
                a)
              a
    ]

unfoldable pub must_change_password : Bytes → Auth → Bool
must_change_password name a = elim (lookup (to_lower name) a.users) [
  | none ↦ false
  | some u ↦ u.must_change
]

-- How many accounts are administrators.
unfoldable pub admins : Assoc Bytes User → ℕ
admins [] = 0
admins ((key, u) ∷ others) = if u.role == "admin" then suc (admins others) else admins others

unfoldable pub drop_sessions : Bytes → Assoc String Session → Assoc String Session
drop_sessions name = retain (λ e. not (equal_fold e.1.user name))

unfoldable pub delete_user : Bool → Bytes → Auth → Reply (Unit {0}) × Auth
unfolding commit_users committed admins drop_sessions
delete_user saved name a =
    let key = to_lower name in
    elim (lookup key a.users) [
      | none ↦ (refused no_such_user, a)
      | some u ↦
          if u.role == "admin" && leb (admins a.users) 1
          then (refused last_admin, a)
          else committed tt (λ b. record b { sessions = drop_sessions name b.sessions })
              (commit_users saved (remove key a.users) a) a
    ]
