-- ===== src/Auth/Commit.antt =====
-- The accounts of internal/arcade/auth.go under the calls that commit a table.
-- Each account stands once in the table, and enforcement is on exactly when there are accounts and
-- it was not switched off for this process.
use teploy_arcade.Prelude.{
  Bytes, ℕ, suc, ◌≤◌, String, ◌≡◌, refl, sym, ap, ◌∙◌, subst, inl, inr, Bool, true, false, not,
  ◌&&◌, none, some, [], ◌∷◌, arith, leb, ◌==◌, Bool-cases, Option-cases, some-inj, contains,
  Distinct, Assoc, lookup, remove, insert, keys, insert-Distinct, remove-Distinct, remove_absent,
  string_key,
}
use teploy_arcade.Text.{to_lower, bytes_beq_iff, bytes_key}
use teploy_arcade.Auth.State.{User, Session, Auth, is_empty, commit_users}
use teploy_arcade.Auth.Accounts.{
  new_user, committed, create_locked, kept_sessions, commit_password, admins, drop_sessions,
  delete_user,
}

pub record IsAuth (a : Auth) : Type 0 where
  pub once : Distinct (keys a.users)
  pub enforced : a.enabled ≡ (not a.forced && not (is_empty a.users))

admins-insert :
    (key : Bytes) (u : User) (m : Assoc Bytes User)
    → lookup key m ≡ none
    → admins m ≤ admins (insert key u m)
unfolding lookup insert admins
admins-insert key u [] h = ground arith
admins-insert key u ((k, v) ∷ m) h = ground (arith, admins-insert key u m)

admins-replace :
    (key : Bytes) (u old : User) (m : Assoc Bytes User)
    → lookup key m ≡ some old
    → u.role ≡ old.role
    → admins (insert key u m) ≡ admins m
unfolding lookup insert admins
admins-replace key u old [] h e = ground arith
admins-replace key u old ((k, v) ∷ m) h e = elim (Bool-cases (k == key)) [
  | inl same ↦
      let found : v ≡ old = some-inj (rw same at h) in
      let role : u.role ≡ v.role = e ∙ ap (λ (x : User). x.role) (sym found) in rw (same, role) refl
  | inr other ↦ let rest = admins-replace key u old m (rw other at h) e in rw (other, rest) refl
]

-- The account that is removed is the only one of its key.
admins-remove :
    (key : Bytes) (u : User) (m : Assoc Bytes User)
    → Distinct (keys m)
    → lookup key m ≡ some u
    → admins m ≤ suc (admins (remove key m))
      × ((u.role == "admin") ≡ false → admins (remove key m) ≡ admins m)
unfolding lookup remove admins
admins-remove key u [] d h = ground arith
admins-remove key u ((k, v) ∷ m) d h = elim (Bool-cases (k == key)) [
  | inl same ↦
      let found : v ≡ u = some-inj (rw same at h) in
      let key_is_k : k ≡ key = (bytes_beq_iff k key).0 same in
      let away = remove_absent key m (subst (λ x. contains (keys m) x ≡ false) key_is_k d.0) in
      let role : v.role ≡ u.role = ap (λ (x : User). x.role) found in
      rw (same, away, role) (ground arith)
  | inr other ↦ let rest = admins-remove key u m d.1 (rw other at h) in rw other (ground arith)
]

-- What an accepted or refused call does to the accounts.
pub record Keeps (a b : Auth) : Type 0 where
  pub valid : IsAuth a → IsAuth b
  pub admin : IsAuth a → 1 ≤ admins a.users → 1 ≤ admins b.users

pub nothing-Keeps : (a : Auth) → Keeps a a
nothing-Keeps a = record { valid = λ v. v; admin = λ v h. h }

-- The commit of a table that keeps each account single and leaves an administrator.
commit-Keeps {ℓ} :
    {A : Type ℓ} (saved : Bool) (next : Assoc Bytes User) (x : A)
    (g : Assoc String Session → Assoc String Session) (a : Auth)
    → (IsAuth a → Distinct (keys next))
    → (IsAuth a → 1 ≤ admins a.users → 1 ≤ admins next)
    → Keeps a
        (committed x (λ b. record b { sessions = g b.sessions }) (commit_users saved next a) a).1
unfolding commit_users committed
commit-Keeps true next x g a d n = record {
  valid = λ v. record { once = d v; enforced = refl };
  admin = n;
}
commit-Keeps false next x g a d n = nothing-Keeps a

pub create_locked-Keeps :
    (saved : Bool) (now : ℕ) (name : Bytes) (role : String) (salt hash : Bytes) (first : Bool)
    (a : Auth)
    → Keeps a (create_locked saved now name role salt hash first a).1
unfolding create_locked
create_locked-Keeps saved now name role salt hash first a =
    elim (Option-cases (lookup (to_lower name) a.users)) [
      | inr (u, there) ↦ rw (there, create_locked) (nothing-Keeps a)
      | inl free ↦
          rw (free, create_locked)
            (commit-Keeps saved _ _ (λ m. m) a
              (λ v. insert-Distinct (to_lower name) _ a.users v.once)
              (λ v h.
                let more =
                  admins-insert (to_lower name) (new_user name role salt hash now first) a.users
                    free in
                omega arith))
    ]

pub delete_user-Keeps :
    (saved : Bool) (name : Bytes) (a : Auth) → Keeps a (delete_user saved name a).1
unfolding delete_user
delete_user-Keeps saved name a = elim (Option-cases (lookup (to_lower name) a.users)) [
  | inl away ↦ rw (away, delete_user) (nothing-Keeps a)
  | inr (u, there) ↦
      rw (there, delete_user)
        (elim (Bool-cases (u.role == "admin" && leb (admins a.users) 1)) [
          | inl last ↦ rw last (nothing-Keeps a)
          | inr spare ↦ rw spare (
              commit-Keeps saved _ _ (drop_sessions name) a
                (λ v. remove-Distinct (to_lower name) a.users v.once)
                (λ v h.
                  let (less, same) = admins-remove (to_lower name) u a.users v.once there in
                  ground arith))
        ])
]

pub commit_password-Keeps :
    (saved : Bool) (name : Bytes) (keep : String) (by_admin : Bool) (p : User × Bytes × Bytes)
    (a : Auth)
    → Keeps a (commit_password saved name keep by_admin p a).1
unfolding commit_password
commit_password-Keeps saved name keep by_admin (snap, salt, hash) a =
    elim (Option-cases (lookup (to_lower name) a.users)) [
      | inl away ↦ rw (away, commit_password) (nothing-Keeps a)
      | inr (u, there) ↦
          rw (there, commit_password)
            (elim (Bool-cases (not by_admin && not (u.salt == snap.salt && u.hash == snap.hash))) [
              | inl moved ↦ rw moved (nothing-Keeps a)
              | inr current ↦ rw current (
                  commit-Keeps saved _ _ (kept_sessions u.name keep) a
                    (λ v. insert-Distinct (to_lower name) _ a.users v.once)
                    (λ v h.
                      subst (λ n. 1 ≤ n)
                        (sym (admins-replace (to_lower name) _ u a.users there refl)) h))
            ])
    ]
