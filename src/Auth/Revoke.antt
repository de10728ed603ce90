-- ===== src/Auth/Revoke.antt =====
-- What a change of the accounts does to the accounts and to the sessions, in internal/arcade/auth.go.
use teploy_arcade.Prelude.{
  Bytes, ℕ, String, ◌≡◌, refl, sym, ap, ◌∙◌, subst, ◌⊎◌, inl, inr, Bool, true, false, not, ◌&&◌,
  Option, none, some, arith, ltb, leb, if◌then◌else◌, ◌==◌, Bool-cases, Option-cases, same_refl,
  retain, Assoc, lookup, remove, lookup-remove, lookup-insert, lookup-retain_passed, string_key,
}
use teploy_arcade.Text.{to_lower, bytes_beq_iff, bytes_key}
use teploy_arcade.Auth.Accounts.{
  committed, prepare_password, kept_sessions, commit_password, admins, drop_sessions, delete_user,
}
use teploy_arcade.Auth.Sessions.{check_login, mint_session, session}
use teploy_arcade.Auth.State.{
  User, Session, Auth, Reply, equal_fold, is_empty, commit_users, invalid_credentials, ok, refused,
}

-- A call either is refused and changes nothing, or is granted and has the effect `P`.
abbrev pub Changes {ℓ} : {A : Type ℓ} → (A → Auth → Type 0) → Auth → Reply A × Auth → Type 0
Changes P a (ok x, b) = P x b
Changes P a (refused why, b) = b ≡ a

-- What holds of a value if there is one.
abbrev pub IfAny {ℓ} : {A : Type ℓ} → (A → Type 0) → Option A → Type 0
IfAny P none = Unit
IfAny P (some x) = P x

pub commit-Changes {ℓ} :
    {A : Type ℓ} (P : A → Auth → Type 0) (saved : Bool) (next : Assoc Bytes User) (x : A)
    (g : Assoc String Session → Assoc String Session) (a : Auth)
    → P x (record a {
      users = next;
      enabled = not a.forced && not (is_empty next);
      setup_gate = if is_empty next then a.setup_gate else false;
      sessions = g a.sessions;
    })
    → Changes P a
        (committed x (λ b. record b { sessions = g b.sessions }) (commit_users saved next a) a)
unfolding commit_users committed
commit-Changes P true next x g a h = h
commit-Changes P false next x g a h = refl

-- The session that a token resolves to is one of those that were kept.
session-retain :
    (p : String × Session → Bool) (token : String) (now : ℕ) (m : Assoc String Session) (a : Auth)
    → a.sessions ≡ retain p m
    → IfAny (λ s. p (token, s) ≡ true) (session token now a).0
unfolding session
session-retain p token now m a e = elim (Option-cases (lookup token a.sessions)) [
  | inl away ↦ rw (away, session) tt
  | inr (s, there) ↦
      let kept = lookup-retain_passed p token m s (ap (lookup token) (sym e) ∙ there) in
      elim (Bool-cases (ltb s.expires now)) [
        | inl old ↦ rw (there, session, old) tt
        | inr live ↦ rw (there, session, live) kept
      ]
]

no_mint :
    (now : ℕ) (name : Bytes) (snap : User) (token : String) (a : Auth)
    → lookup (to_lower name) a.users ≡ none
    → mint_session now name (snap, token) a ≡ (refused invalid_credentials, a)
unfolding mint_session
no_mint now name snap token a away = rw (away, mint_session) refl

-- Deleting an account is refused and changes nothing, or it takes exactly that account out of the
-- table. In the state that it leaves, no token resolves, whatever the clock says, to a session of that
-- name; and a sign-in under that name, in any spelling, gets no session, even one that had checked
-- the password before the deletion.
pub delete_user-Changes :
    (saved : Bool) (name : Bytes) (a : Auth)
    → Changes
        (λ _ b.
          ((key : Bytes)
            → lookup key b.users ≡ (if to_lower name == key then none else lookup key a.users))
          × ((token : String) (now : ℕ)
              → IfAny (λ s. not (equal_fold s.user name) ≡ true) (session token now b).0)
          × ((other : Bytes) (now : ℕ) (snap : User) (token : String)
              → to_lower other ≡ to_lower name
              → mint_session now other (snap, token) b ≡ (refused invalid_credentials, b)))
        a
        (delete_user saved name a)
unfolding delete_user drop_sessions
delete_user-Changes saved name a = elim (Option-cases (lookup (to_lower name) a.users)) [
  | inl away ↦ rw (away, delete_user) refl
  | inr (u, there) ↦
      rw (there, delete_user)
        (elim (Bool-cases (u.role == "admin" && leb (admins a.users) 1)) [
          | inl last ↦ rw last refl
          | inr spare ↦ rw spare (
              commit-Changes _ saved _ tt (drop_sessions name) a (
                (λ key. lookup-remove (to_lower name) key a.users),
                (λ token now.
                    session-retain (λ e. not (equal_fold e.1.user name)) token now a.sessions _
                      refl),
                (λ other now snap token same. no_mint now other snap token _ (
                    ap (λ key. lookup key (remove (to_lower name) a.users)) same
                    ∙ lookup-remove (to_lower name) (to_lower name) a.users
                    ∙ rw (same_refl (to_lower name)) refl)),
              ))
        ])
]

check_login_right :
    (kdf : Bytes → Bytes → Bytes) (name password : Bytes) (token : String) (u : User) (a : Auth)
    → lookup (to_lower name) a.users ≡ some u
    → u.hash ≡ kdf password u.salt
    → check_login kdf (some token) name password a ≡ ok (u, token)
unfolding check_login
check_login_right kdf name password token u a there right =
    rw (there, check_login, right, same_refl (kdf password u.salt)) refl

-- What the first half of a change of password has found and computed in the state `a0`.
pub record IsPrepared (kdf : Bytes → Bytes → Bytes) (name current next : Bytes) (by_admin : Bool)
    (a0 : Auth) (prep : User × Bytes × Bytes) : Type 0 where
  pub there : lookup (to_lower name) a0.users ≡ some prep.0
  pub proven : (by_admin ≡ true) ⊎ (prep.0.hash ≡ kdf current prep.0.salt)
  pub hashed : prep.2 ≡ kdf next prep.1

right_hash : (b : Bool) (h k : Bytes) → (not b && not (h == k)) ≡ false → (b ≡ true) ⊎ (h ≡ k)
right_hash true h k passed = inl refl
right_hash false h k passed = inr ((bytes_beq_iff h k).0 (ground arith))

prepare_password-IsPrepared :
    (kdf : Bytes → Bytes → Bytes) (salt : Option Bytes) (name current next : Bytes)
    (by_admin : Bool) (a0 : Auth) (prep : User × Bytes × Bytes)
    → prepare_password kdf salt name current next by_admin a0 ≡ ok prep
    → IsPrepared kdf name current next by_admin a0 prep
unfolding prepare_password
prepare_password-IsPrepared kdf salt name current next by_admin a0 prep h =
    elim (Option-cases (lookup (to_lower name) a0.users)) [
      | inl away ↦ absurd (ground arith)
      | inr (u, there) ↦ elim (Bool-cases (not by_admin && not (u.hash == kdf current u.salt))) [
        | inl wrong ↦ absurd (ground arith)
        | inr right ↦ elim (Option-cases salt) [
          | inl no_salt ↦ absurd (ground arith)
          | inr (s, drawn) ↦
              let same : (u, s, kdf next s) ≡ prep = ground arith in
              subst (IsPrepared kdf name current next by_admin a0) same (record {
                there = there;
                proven = right_hash by_admin u.hash (kdf current u.salt) right;
                hashed = refl;
              })
        ]
      ]
    ]

abbrev with_password : User → Bytes → Bytes → Bool → User
with_password u salt hash by_admin = record u { salt = salt; hash = hash; must_change = by_admin }

-- What the second half of a change of password leaves.
abbrev pub Rehashed :
    (Bytes → Bytes → Bytes) → Bytes → Bytes → String → Bool → Bytes → Auth → Auth → Type 0
Rehashed kdf name next keep by_admin salt a b =
    (u : User) × (lookup (to_lower name) a.users ≡ some u)
    × ((key : Bytes)
        → lookup key b.users ≡ (
            if to_lower name == key
            then some (with_password u salt (kdf next salt) by_admin)
            else lookup key a.users))
    × ((token : String)
        → check_login kdf (some token) name next b
          ≡ ok (with_password u salt (kdf next salt) by_admin, token))
    × ((token : String) (now : ℕ)
        → IfAny (λ s. not (equal_fold s.user u.name && not (token == keep)) ≡ true)
            (session token now b).0)

commit-Rehashed :
    (kdf : Bytes → Bytes → Bytes) (saved : Bool) (name next : Bytes) (keep : String)
    (by_admin : Bool) (snap : User) (salt : Bytes) (a : Auth)
    → Changes
        (λ _. Rehashed kdf name next keep by_admin salt a)
        a
        (commit_password saved name keep by_admin (snap, salt, kdf next salt) a)
unfolding commit_password kept_sessions
commit-Rehashed kdf saved name next keep by_admin snap salt a =
    elim (Option-cases (lookup (to_lower name) a.users)) [
      | inl away ↦ rw (away, commit_password) refl
      | inr (u, there) ↦
          rw (there, commit_password)
            (elim (Bool-cases (not by_admin && not (u.salt == snap.salt && u.hash == snap.hash))) [
              | inl moved ↦ rw moved refl
              | inr current ↦ rw current (
                  commit-Changes _ saved _ tt (kept_sessions u.name keep) a (
                    u,
                    there,
                    (λ key. lookup-insert (to_lower name) key _ a.users),
                    (λ token.
                        check_login_right kdf name next token _ _
                          (lookup-insert (to_lower name) (to_lower name) _ a.users
                            ∙ rw (same_refl (to_lower name)) refl)
                          refl),
                    (λ token now.
                        session-retain (λ e. not (equal_fold e.1.user u.name && not (e.0 == keep)))
                          token now a.sessions _ refl),
                  ))
            ])
    ]

-- A change of password has two halves: the first checks the passwords and hashes the new one, and the
-- second commits, on a state that other calls may have changed. When the first went through, its
-- caller is an administrator or had the password of the account; and the second is refused and
-- changes nothing, or it stores the hash of the new password, so that the check of the new password
-- then passes, leaves every other account as it was, and, in the state that it leaves, no token but
-- the caller's own resolves, whatever the clock says, to a session of that user.
pub commit_password-Changes :
    (kdf : Bytes → Bytes → Bytes) (salt : Option Bytes) (name current next : Bytes)
    (by_admin : Bool) (a0 : Auth) (prep : User × Bytes × Bytes) (saved : Bool) (keep : String)
    (a : Auth)
    → prepare_password kdf salt name current next by_admin a0 ≡ ok prep
    → IsPrepared kdf name current next by_admin a0 prep
      × Changes
          (λ _. Rehashed kdf name next keep by_admin prep.1 a)
          a
          (commit_password saved name keep by_admin prep a)
commit_password-Changes kdf salt name current next by_admin a0 (snap, s, h) saved keep a went =
    let found =
      prepare_password-IsPrepared kdf salt name current next by_admin a0 (snap, s, h) went in
    (found, rw found.hashed (commit-Rehashed kdf saved name next keep by_admin snap s a))
