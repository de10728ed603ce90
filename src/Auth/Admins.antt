-- ===== src/Auth/Admins.antt =====
-- The accounts of internal/arcade/auth.go through any history of calls.
-- What may happen to the state of `Auth`: each call is what runs under one lock.
use teploy_arcade.Prelude.{
  Bytes, ℕ, ◌≤◌, String, ◌≡◌, refl, inl, inr, Bool, true, false, not, Option, none, some, List, [],
  ◌∷◌, arith, Bool-cases, Option-cases,
}
use teploy_arcade.Auth.State.{User, Auth, is_empty, check_new_user, disable, begin_setup}
use teploy_arcade.Auth.Accounts.{
  create_user, create_first_user, commit_password, admins, delete_user,
}
use teploy_arcade.Auth.Sessions.{mint_session, logout, session, reap_sessions}
use teploy_arcade.Auth.Gate.{allow_login_key}
use teploy_arcade.Auth.Commit.{
  IsAuth, Keeps, nothing-Keeps, create_locked-Keeps, delete_user-Keeps, commit_password-Keeps,
}

pub data AuthCall : Type 0 where
  creates : Bool → ℕ → Option Bytes → Bytes → Bytes → String → AuthCall
  creates_first : Bool → ℕ → Option Bytes → Bytes → Bytes → AuthCall
  commits_password : Bool → Bytes → String → Bool → (User × Bytes × Bytes) → AuthCall
  deletes : Bool → Bytes → AuthCall
  mints : ℕ → Bytes → (User × String) → AuthCall
  logs_out : String → AuthCall
  looks_up : String → ℕ → AuthCall
  reaps : ℕ → AuthCall
  tries : String → ℕ → ℕ → AuthCall
  disables : AuthCall
  begins_setup : Option String → ℕ → AuthCall

module _ (kdf : Bytes → Bytes → Bytes) where
  unfoldable pub auth_step : AuthCall → Auth → Auth
  auth_step (creates saved now salt name password role) a =
      (create_user kdf saved now salt name password role a).1
  auth_step (creates_first saved now salt name password) a =
      (create_first_user kdf saved now salt name password a).1
  auth_step (commits_password saved name keep by_admin p) a =
      (commit_password saved name keep by_admin p a).1
  auth_step (deletes saved name) a = (delete_user saved name a).1
  auth_step (mints now name p) a = (mint_session now name p a).1
  auth_step (logs_out token) a = logout token a
  auth_step (looks_up token now) a = (session token now a).1
  auth_step (reaps now) a = reap_sessions now a
  auth_step (tries key limit now) a = (allow_login_key key limit now a).1
  auth_step disables a = disable a
  auth_step (begins_setup token now) a = (begin_setup token now a).1

  unfoldable pub auth_run : List AuthCall → Auth → Auth
  unfolding auth_step
  auth_run [] a = a
  auth_run (c ∷ cs) a = auth_run cs (auth_step c a)

-- A call that does not touch the accounts or the switches.
apart-Keeps :
    (a b : Auth) → b.users ≡ a.users → b.enabled ≡ a.enabled → b.forced ≡ a.forced → Keeps a b
apart-Keeps a b u e f = record {
  valid = λ v. record { once = rw u v.once; enforced = rw (e, f, u) v.enforced };
  admin = λ v h. rw u h;
}

mint_session-Keeps :
    (now : ℕ) (name : Bytes) (p : User × String) (a : Auth) → Keeps a (mint_session now name p a).1
unfolding mint_session
mint_session-Keeps now name (snap, token) a =
    apart-Keeps a _ (ground arith) (ground arith) (ground arith)

session-Keeps : (token : String) (now : ℕ) (a : Auth) → Keeps a (session token now a).1
unfolding session
session-Keeps token now a = apart-Keeps a _ (ground arith) (ground arith) (ground arith)

allow_login_key-Keeps :
    (key : String) (limit now : ℕ) (a : Auth) → Keeps a (allow_login_key key limit now a).1
unfolding allow_login_key
allow_login_key-Keeps key limit now a = apart-Keeps a _ (ground arith) (ground arith) (ground arith)

begin_setup-Keeps :
    (token : Option String) (now : ℕ) (a : Auth) → Keeps a (begin_setup token now a).1
unfolding begin_setup
begin_setup-Keeps token now a = apart-Keeps a _ (ground arith) (ground arith) (ground arith)

module _ (kdf : Bytes → Bytes → Bytes) where
  create_user-Keeps :
      (saved : Bool) (now : ℕ) (salt : Option Bytes) (name password : Bytes) (role : String)
      (a : Auth)
      → Keeps a (create_user kdf saved now salt name password role a).1
  unfolding create_user
  create_user-Keeps saved now none name password role a =
      elim (Option-cases (check_new_user name password role)) [
        | inr (why, bad) ↦ rw (bad, create_user) (nothing-Keeps a)
        | inl good ↦ rw (good, create_user) (nothing-Keeps a)
      ]
  create_user-Keeps saved now (some s) name password role a =
      elim (Option-cases (check_new_user name password role)) [
        | inr (why, bad) ↦ rw (bad, create_user) (nothing-Keeps a)
        | inl good ↦
            rw (good, create_user)
              (create_locked-Keeps saved now name role s (kdf password s) false a)
      ]

  create_first_user-Keeps :
      (saved : Bool) (now : ℕ) (salt : Option Bytes) (name password : Bytes) (a : Auth)
      → Keeps a (create_first_user kdf saved now salt name password a).1
  unfolding create_first_user
  create_first_user-Keeps saved now none name password a =
      elim (Option-cases (check_new_user name password "admin")) [
        | inr (why, bad) ↦ rw (bad, create_first_user) (nothing-Keeps a)
        | inl good ↦ rw (good, create_first_user) (nothing-Keeps a)
      ]
  create_first_user-Keeps saved now (some s) name password a =
      elim (Option-cases (check_new_user name password "admin")) [
        | inr (why, bad) ↦ rw (bad, create_first_user) (nothing-Keeps a)
        | inl good ↦
            rw (good, create_first_user)
              (elim (Bool-cases (not (is_empty a.users))) [
                | inl claimed ↦ rw claimed (nothing-Keeps a)
                | inr free ↦
                    rw free (create_locked-Keeps saved now name "admin" s (kdf password s) true a)
              ])
      ]

  step-Keeps : (c : AuthCall) (a : Auth) → Keeps a (auth_step kdf c a)
  unfolding auth_step disable
  step-Keeps (creates saved now salt name password role) a =
      create_user-Keeps saved now salt name password role a
  step-Keeps (creates_first saved now salt name password) a =
      create_first_user-Keeps saved now salt name password a
  step-Keeps (commits_password saved name keep by_admin p) a =
      commit_password-Keeps saved name keep by_admin p a
  step-Keeps (deletes saved name) a = delete_user-Keeps saved name a
  step-Keeps (mints now name p) a = mint_session-Keeps now name p a
  step-Keeps (logs_out token) a =
      apart-Keeps a _ (unfold logout in refl) (unfold logout in refl) (unfold logout in refl)
  step-Keeps (looks_up token now) a = session-Keeps token now a
  step-Keeps (reaps now) a =
      apart-Keeps a _ (unfold reap_sessions in refl) (unfold reap_sessions in refl)
        (unfold reap_sessions in refl)
  step-Keeps (tries key limit now) a = allow_login_key-Keeps key limit now a
  step-Keeps disables a = record {
    valid = λ v. record { once = v.once; enforced = refl };
    admin = λ v h. h;
  }
  step-Keeps (begins_setup token now) a = begin_setup-Keeps token now a

  run-Keeps : (calls : List AuthCall) (a : Auth) → Keeps a (auth_run kdf calls a)
  unfolding auth_run
  run-Keeps [] a = nothing-Keeps a
  run-Keeps (c ∷ cs) a =
      let first = step-Keeps c a in
      let rest = run-Keeps cs (auth_step kdf c a) in
      record {
        valid = λ v. rest.valid (first.valid v);
        admin = λ v h. rest.admin (first.valid v) (first.admin v h);
      }

-- From a valid state of the accounts, any history of calls, in any order and with any of them refused
-- or failing to save, leaves a valid state: each account stands once, and enforcement is on exactly
-- when there are accounts and it was not switched off.
pub run-IsAuth :
    (kdf : Bytes → Bytes → Bytes) (calls : List AuthCall) (a : Auth)
    → IsAuth a
    → IsAuth (auth_run kdf calls a)
run-IsAuth kdf calls a v = (run-Keeps kdf calls a).valid v

-- In a valid state of the accounts, a panel with an administrator keeps one: no history of calls,
-- in any order, deletes the last one or takes the role away from it.
pub admins-run :
    (kdf : Bytes → Bytes → Bytes) (calls : List AuthCall) (a : Auth)
    → IsAuth a
    → 1 ≤ admins a.users
    → 1 ≤ admins (auth_run kdf calls a).users
admins-run kdf calls a v h = (run-Keeps kdf calls a).admin v h
