-- ===== src/Auth/Gate.antt =====
-- The request gate and the login limiter in internal/arcade/auth.go.
use teploy_arcade.Prelude.{
  ℕ, suc, ◌-◌, ◌*◌, ◌^◌, String, Bool, true, false, not, ◌&&◌, Option, none, some, ltb, leb,
  if◌then◌else◌, length, retain, Assoc, lookup, insert, string_key,
}
use teploy_arcade.Text.{bytes_key}
use teploy_arcade.Auth.State.{Session, Bucket, Auth, role_rank, setup_required}
use teploy_arcade.Auth.Accounts.{must_change_password}
use teploy_arcade.Auth.Sessions.{session}

-- What the gate does with a request: the statuses are 503, 401, 403 and 403.
pub data Verdict : Type 0 where
  pass unavailable sign_in forbidden password_due : Verdict

-- `gate`. Its two reads are two functions, since the state may change between them: `gate_state`,
-- and `must_change_password` on the later state `b`.
unfoldable pub gate_state : Auth → Bool × Bool
unfolding setup_required
gate_state a = (a.enabled, setup_required a)

unfoldable pub gate : String → Bool → Option Session → Auth → Auth → Verdict
unfolding gate_state role_rank must_change_password
gate role lockout held a b =
    let (enabled, required) = gate_state a in
    if not enabled then (if required then unavailable else pass) else elim held [
      | none ↦ sign_in
      | some s ↦
          if ltb (role_rank s.role) (role_rank role)
          then forbidden
          else if lockout && must_change_password s.user b
          then password_due
          else pass
    ]

-- `attach` and then the gate, with no other call in between: `cookie` is the token of the cookie.
unfoldable pub request : Option String → String → Bool → ℕ → Auth → Verdict
unfolding session gate
request none role lockout now a = gate role lockout none a a
request (some token) role lockout now a =
    let (held, b) = session token now a in gate role lockout held b b

abbrev pub minute : ℕ
minute = 60 * 10 ^ 9

abbrev pub max_buckets : ℕ
max_buckets = 4096

unfoldable pub fresh_buckets : ℕ → Assoc String Bucket → Assoc String Bucket
fresh_buckets now = retain (λ e. ltb (now - e.1.start) minute)

abbrev pub attempt : String → ℕ → Bucket → Assoc String Bucket → Bool × Assoc String Bucket
attempt key limit b kept =
    if leb limit b.attempts
    then (false, kept)
    else (true, insert key (record b { attempts = suc b.attempts }) kept)

-- `allowLoginKeyLocked`.
unfoldable pub allow_login_key : String → ℕ → ℕ → Auth → Bool × Auth
unfolding fresh_buckets
allow_login_key key limit now a =
    let kept = fresh_buckets now a.buckets in
    elim (lookup key kept) [
      | some b ↦
          let (granted, next) = attempt key limit b kept in (granted, record a { buckets = next })
      | none ↦
          if leb max_buckets (length kept)
          then (false, record a { buckets = kept })
          else let (granted, next) =
              attempt key limit (record { start = now; attempts = 0 }) kept in
            (granted, record a { buckets = next })
    ]
