-- ===== src/Auth/Login.antt =====
-- Signing in with a password, in internal/arcade/auth.go, when the accounts change between its locks.
use teploy_arcade.Prelude.{
  Bytes, ℕ, ◌+◌, String, ◌≡◌, refl, ◌∙◌, subst, inl, inr, Bool, true, false, ◌&&◌, ◌||◌, Option,
  none, some, arith, ltb, leb, ◌==◌, Bool-cases, Option-cases, same_refl, length, lookup,
  lookup-insert, string_key,
}
use teploy_arcade.Text.{to_lower, bytes_beq_iff, bytes_key}
use teploy_arcade.Auth.State.{User, Auth, Reply, ok, refused}
use teploy_arcade.Auth.Sessions.{
  session_ttl, check_login, live_sessions, active, max_user_sessions, max_sessions, new_session,
  mint_session, session,
}
use teploy_arcade.Auth.Access.{session_live}

-- What holds of a call that was granted.
abbrev pub Grants {ℓ} : {A : Type ℓ} → (A → Auth → Type 0) → Reply A × Auth → Type 0
Grants P (ok x, b) = P x b
Grants P (refused why, b) = Unit

abbrev Right : (Bytes → Bytes → Bytes) → Bytes → Reply (User × String) → Type 0
Right kdf password (ok (u, token)) = u.hash ≡ kdf password u.salt
Right kdf password (refused why) = Unit

check_login-Right :
    (kdf : Bytes → Bytes → Bytes) (token : Option String) (name password : Bytes) (a : Auth)
    → Right kdf password (check_login kdf token name password a)
unfolding check_login
check_login-Right kdf none name password a = elim (Option-cases (lookup (to_lower name) a.users)) [
  | inl away ↦ rw (away, check_login) tt
  | inr (u, there) ↦ elim (Bool-cases (u.hash == kdf password u.salt)) [
    | inl right ↦ rw (there, check_login, right) tt
    | inr wrong ↦ rw (there, check_login, wrong) tt
  ]
]
check_login-Right kdf (some t) name password a =
    elim (Option-cases (lookup (to_lower name) a.users)) [
      | inl away ↦ rw (away, check_login) tt
      | inr (u, there) ↦ elim (Bool-cases (u.hash == kdf password u.salt)) [
        | inl right ↦
            rw (there, check_login, right) ((bytes_beq_iff u.hash (kdf password u.salt)).0 right)
        | inr wrong ↦ rw (there, check_login, wrong) tt
      ]
    ]

same_record :
    (u snap : User)
    → (u.salt == snap.salt && u.hash == snap.hash) ≡ true
    → (u.salt ≡ snap.salt) × (u.hash ≡ snap.hash)
same_record u snap same =
    let both : ((u.salt == snap.salt) ≡ true) × ((u.hash == snap.hash) ≡ true) =
      both_true (u.salt == snap.salt) (u.hash == snap.hash) same in
    ((bytes_beq_iff u.salt snap.salt).0 both.0, (bytes_beq_iff u.hash snap.hash).0 both.1)
  where
    both_true : (p q : Bool) → (p && q) ≡ true → (p ≡ true) × (q ≡ true)
    both_true p q h = ground arith

not_past : (now : ℕ) → ltb (now + session_ttl) now ≡ false
not_past now = ground arith

-- When a login passed the check of its password, then it is refused, or on the accounts as they are
-- when it is granted, the account exists and its stored hash is the hash of the password that was
-- given, whatever happened since the check; the session has the account's role of that moment, and
-- its token resolves to it.
pub login-Grants :
    (kdf : Bytes → Bytes → Bytes) (token : Option String) (name password : Bytes) (a : Auth)
    (snap : User) (t : String)
    → check_login kdf token name password a ≡ ok (snap, t)
    → (now : ℕ) (b : Auth)
    → Grants
        (λ s c.
          (u : User) × (lookup (to_lower name) b.users ≡ some u)
          × (u.hash ≡ kdf password u.salt)
          × (s.role ≡ u.role)
          × (session s.token now c ≡ (some s, c)))
        (mint_session now name (snap, t) b)
unfolding mint_session
login-Grants kdf token name password a snap t checked now b =
    let right : Right kdf password (ok (snap, t)) =
      subst (Right kdf password) checked (check_login-Right kdf token name password a) in
    elim (Option-cases (lookup (to_lower name) b.users)) [
      | inl away ↦ rw (away, mint_session) tt
      | inr (u, there) ↦
          rw (there, mint_session)
            (elim (Bool-cases (u.salt == snap.salt && u.hash == snap.hash)) [
              | inr moved ↦ rw moved tt
              | inl same ↦ rw same (
                  let unchanged = same_record u snap same in
                  let live = live_sessions now b.sessions in
                  elim (Bool-cases (
                    leb max_user_sessions (active snap.name live)
                    || leb max_sessions (length live))) [
                      | inl full ↦ rw full tt
                      | inr room ↦ rw room (
                        u,
                        refl,
                        rw (unchanged.1, unchanged.0) right,
                        refl,
                        session_live t now (new_session t snap u now) _
                            (lookup-insert t t (new_session t snap u now) live
                              ∙ rw (same_refl t) refl)
                            (not_past now),
                      )
                    ])
            ])
    ]
