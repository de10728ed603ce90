-- ===== src/Auth/Tests.antt =====
-- The theorems on accounts and sessions at concrete states, and runs of the model.
use teploy_arcade.Prelude.{
  Bytes, ℕ, zero, suc, ◌+◌, ◌≤◌, String, ◌≡◌, refl, Bool, true, false, not, none, some, List, [],
  ◌∷◌, ◌++◌, arith, if◌then◌else◌, ◌==◌, length, retain, contains, lookup, string_key,
}
use teploy_arcade.Text.{to_lower, bytes_key}
use teploy_arcade.Auth.Access.{
  request-setup_required, Shown, request-Shown, create_first_user-Changes,
}
use teploy_arcade.Auth.Accounts.{
  new_user, committed, create_first_user, prepare_password, commit_password, must_change_password,
  admins, delete_user,
}
use teploy_arcade.Auth.Admins.{
  AuthCall, auth_run, run-IsAuth, admins-run, creates, deletes, disables,
}
use teploy_arcade.Auth.Bounds.{IsBounded, mint_session-IsBounded}
use teploy_arcade.Auth.Commit.{IsAuth}
use teploy_arcade.Auth.Gate.{
  gate, request, max_buckets, allow_login_key, pass, unavailable, sign_in,
}
use teploy_arcade.Auth.Limits.{tries_run, grants, grants-le, allow_login_key-bounded}
use teploy_arcade.Auth.Login.{Grants, login-Grants}
use teploy_arcade.Auth.Revoke.{
  Changes, IfAny, delete_user-Changes, IsPrepared, Rehashed, commit_password-Changes,
}
use teploy_arcade.Auth.Sessions.{
  check_login, live_sessions, active, new_session, mint_session, session,
}
use teploy_arcade.Auth.State.{
  User, Auth, new_auth, role_rank, equal_fold, is_empty, commit_users, setup_required,
  invalid_credentials, last_admin, ok, refused,
}

abbrev kdf : Bytes → Bytes → Bytes
kdf password salt = password ++ salt

abbrev ann : Bytes
ann = 65 ∷ 110 ∷ 110 ∷ []

abbrev bob : Bytes
bob = 98 ∷ 111 ∷ 98 ∷ []

abbrev secret : Bytes
secret = 1 ∷ 2 ∷ 3 ∷ 4 ∷ 5 ∷ 6 ∷ 7 ∷ 8 ∷ []

abbrev other_secret : Bytes
other_secret = 8 ∷ 7 ∷ 6 ∷ 5 ∷ 4 ∷ 3 ∷ 2 ∷ 1 ∷ []

abbrev ann_user : User
ann_user = new_user ann "admin" (9 ∷ []) (kdf secret (9 ∷ [])) 0 true

abbrev bob_user : User
bob_user = new_user bob "viewer" (7 ∷ []) (kdf secret (7 ∷ [])) 0 false

-- Two accounts, one session of the administrator.
abbrev office : Auth
office = record new_auth {
  users = (97 ∷ 110 ∷ 110 ∷ [], ann_user) ∷ (bob, bob_user) ∷ [];
  sessions = ("t0", record { token = "t0"; user = ann; role = "admin"; expires = 1000 }) ∷ [];
  buckets = ("ip:1", record { start = 0; attempts = 1 }) ∷ [];
  enabled = true;
}

abbrev unclaimed : Auth
unclaimed = record new_auth { setup_gate = true; bootstrap_token = "boot"; bootstrap_expiry = 100 }

office-IsAuth : IsAuth office
unfolding contains is_empty new_auth
office-IsAuth = record { once = (refl, (refl, tt)); enforced = refl }

unclaimed-IsAuth : IsAuth unclaimed
unfolding is_empty new_auth
unclaimed-IsAuth = record { once = tt; enforced = refl }

-- Deleting the last administrator is refused, the other account can go.
last_admin_stays : (delete_user true ann office).0 ≡ refused last_admin
unfolding delete_user lookup to_lower admins new_user
last_admin_stays = refl

viewer_goes : (delete_user true bob office).0 ≡ ok tt
unfolding delete_user lookup to_lower admins commit_users committed new_user
viewer_goes = refl

abbrev day : List AuthCall
day =
    deletes true ann
    ∷ deletes true bob
    ∷ creates true 5 (some (6 ∷ [])) bob secret "operator"
    ∷ disables
    ∷ []

run-IsAuth_example : IsAuth (auth_run kdf day office)
run-IsAuth_example = run-IsAuth kdf day office office-IsAuth

one_admin : 1 ≤ admins office.users
unfolding admins new_user
one_admin = omega arith

admins-run_example : 1 ≤ admins (auth_run kdf day office).users
admins-run_example = admins-run kdf day office office-IsAuth one_admin

delete_user-Changes_example :
    Changes
      (λ _ b.
        ((key : Bytes)
          → lookup key b.users ≡ (if to_lower bob == key then none else lookup key office.users))
        × ((token : String) (now : ℕ)
            → IfAny (λ s. not (equal_fold s.user bob) ≡ true) (session token now b).0)
        × ((other : Bytes) (now : ℕ) (snap : User) (token : String)
            → to_lower other ≡ to_lower bob
            → mint_session now other (snap, token) b ≡ (refused invalid_credentials, b)))
      office
      (delete_user true bob office)
delete_user-Changes_example = delete_user-Changes true bob office

prepared :
    prepare_password kdf (some (4 ∷ [])) ann secret other_secret false office
    ≡ ok (ann_user, 4 ∷ [], kdf other_secret (4 ∷ []))
unfolding prepare_password lookup to_lower new_user
prepared = refl

commit_password-Changes_example :
    IsPrepared kdf ann secret other_secret false office
      (ann_user, 4 ∷ [], kdf other_secret (4 ∷ []))
    × Changes
        (λ _. Rehashed kdf ann other_secret "t0" false (4 ∷ []) office)
        office
        (commit_password true ann "t0" false (ann_user, 4 ∷ [], kdf other_secret (4 ∷ [])) office)
commit_password-Changes_example =
    commit_password-Changes kdf (some (4 ∷ [])) ann secret other_secret false office
      (ann_user, 4 ∷ [], kdf other_secret (4 ∷ [])) true "t0" office prepared

checked : check_login kdf (some "t1") ann secret office ≡ ok (ann_user, "t1")
unfolding check_login lookup to_lower new_user
checked = refl

login-Grants_example :
    Grants
      (λ s c.
        (u : User) × (lookup (to_lower ann) office.users ≡ some u)
        × (u.hash ≡ kdf secret u.salt)
        × (s.role ≡ u.role)
        × (session s.token 50 c ≡ (some s, c)))
      (mint_session 50 ann (ann_user, "t1") office)
login-Grants_example =
    login-Grants kdf (some "t1") ann secret office ann_user "t1" checked 50 office

granted :
    (mint_session 50 ann (ann_user, "t1") office).0 ≡ ok (new_session "t1" ann_user ann_user 50)
unfolding mint_session lookup to_lower new_user active live_sessions equal_fold retain
granted = refl

office-IsBounded : IsBounded office
unfolding active
office-IsBounded = record { all_users = omega arith; one_user = λ user. ground arith }

mint_session-IsBounded_example : IsBounded (mint_session 50 ann (ann_user, "t1") office).1
mint_session-IsBounded_example =
    mint_session-IsBounded 50 ann (ann_user, "t1") office office-IsBounded

required : setup_required unclaimed ≡ true
unfolding setup_required is_empty new_auth
required = refl

request-setup_required_example : request (some "t0") "viewer" true 5 unclaimed ≡ unavailable
request-setup_required_example =
    request-setup_required unclaimed (some "t0") "viewer" true 5 unclaimed-IsAuth required

passes : request (some "t0") "operator" true 5 office ≡ pass
unfolding request gate session lookup must_change_password role_rank to_lower new_user
passes = refl

request-Shown_example : Shown office (some "t0") "operator" true 5
request-Shown_example = request-Shown office (some "t0") "operator" true 5 refl passes

create_first_user-Changes_example :
    Changes
      (λ u b.
        (unclaimed.users ≡ [])
        × (b.users ≡ (to_lower ann, u) ∷ [])
        × (u.role ≡ "admin")
        × (u.must_change ≡ false)
        × (setup_required b ≡ false)
        × ((role : String) (lockout : Bool) (at : ℕ)
            → request none role lockout at b ≡ (if unclaimed.forced then pass else sign_in)))
      unclaimed
      (create_first_user kdf true 7 (some (9 ∷ [])) ann secret unclaimed)
create_first_user-Changes_example =
    create_first_user-Changes kdf true 7 (some (9 ∷ [])) ann secret unclaimed

abbrev limits : String → ℕ
limits key = 2

abbrev attempts : List (String × ℕ)
attempts = ("ip:1", 10) ∷ ("ip:2", 20) ∷ ("ip:1", 30) ∷ ("ip:1", 40) ∷ []

bucket_there : lookup "ip:1" office.buckets ≡ some (record { start = 0; attempts = 1 })
unfolding lookup
bucket_there = refl

grants-le_example : grants "ip:1" (tries_run limits attempts office).0 + 1 ≤ 2
grants-le_example =
    grants-le limits attempts "ip:1" office (record { start = 0; attempts = 1 }) bucket_there
      (omega arith) (omega arith, (omega arith, (omega arith, (omega arith, tt))))

allow_login_key-bounded_example :
    length (allow_login_key "ip:9" 60 5 office).1.buckets ≤ max_buckets
allow_login_key-bounded_example = allow_login_key-bounded "ip:9" 60 5 office (omega arith)

abbrev repeat_byte : ℕ → Bytes
repeat_byte zero = []
repeat_byte (suc n) = 97 ∷ repeat_byte n

abbrev stored_ann : User
stored_ann = record ann_user { salt = repeat_byte 32; hash = repeat_byte 64 }
