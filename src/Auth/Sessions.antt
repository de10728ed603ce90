-- ===== src/Auth/Sessions.antt =====
-- Sessions in internal/arcade/auth.go: login, logout, lookup and the reaper. `Login` hashes with no
-- lock held, so it is two functions, and other calls may change the state between them.
use teploy_arcade.Prelude.{
  Bytes, ℕ, suc, ◌+◌, ◌*◌, ◌^◌, String, not, ◌&&◌, ◌||◌, Option, none, some, [], ◌∷◌, ltb, leb,
  if◌then◌else◌, ◌==◌, length, retain, Assoc, lookup, remove, insert, string_key,
}
use teploy_arcade.Text.{to_lower, bytes_key}
use teploy_arcade.Auth.State.{
  User, Session, Auth, Reply, equal_fold, no_entropy, invalid_credentials, session_limit, ok,
  refused,
}

abbrev pub session_ttl : ℕ
session_ttl = 12 * 60 * 60 * 10 ^ 9

-- `Login` up to its second lock: the record whose password was right, and the new token.
unfoldable pub check_login :
    (Bytes → Bytes → Bytes) → Option String → Bytes → Bytes → Auth → Reply (User × String)
check_login kdf token name password a = elim (lookup (to_lower name) a.users) [
  | none ↦ refused invalid_credentials
  | some u ↦
      if not (u.hash == kdf password u.salt)
      then refused invalid_credentials
      else elim token [ none ↦ refused no_entropy | some t ↦ ok (u, t) ]
]

-- The sessions that have not expired at `now`.
unfoldable pub live_sessions : ℕ → Assoc String Session → Assoc String Session
live_sessions now = retain (λ e. ltb now e.1.expires)

-- How many sessions belong to a user.
unfoldable pub active : Bytes → Assoc String Session → ℕ
active user [] = 0
active user ((token, s) ∷ others) =
    if equal_fold s.user user then suc (active user others) else active user others

abbrev pub max_user_sessions : ℕ
max_user_sessions = 32

abbrev pub max_sessions : ℕ
max_sessions = 4096

abbrev pub new_session : String → User → User → ℕ → Session
new_session token snap u now = record {
  token = token;
  user = snap.name;
  role = u.role;
  expires = now + session_ttl;
}

-- `Login` from its second lock on, on the state of that time: the record is compared with the one
-- that was checked, the expired sessions go, and the session is stored if there is room.
unfoldable pub mint_session : ℕ → Bytes → (User × String) → Auth → Reply Session × Auth
unfolding live_sessions active
mint_session now name (snap, token) a = elim (lookup (to_lower name) a.users) [
  | none ↦ (refused invalid_credentials, a)
  | some u ↦
      let live = live_sessions now a.sessions in
      let s = new_session token snap u now in
      if not (u.salt == snap.salt && u.hash == snap.hash)
      then (refused invalid_credentials, a)
      else if leb max_user_sessions (active snap.name live) || leb max_sessions (length live)
      then (refused session_limit, record a { sessions = live })
      else (ok s, record a { sessions = insert token s live })
]

unfoldable pub logout : String → Auth → Auth
logout token a = record a { sessions = remove token a.sessions }

-- `Session`.
unfoldable pub session : String → ℕ → Auth → Option Session × Auth
session token now a = elim (lookup token a.sessions) [
  | none ↦ (none, a)
  | some s ↦
      if ltb s.expires now
      then (none, record a { sessions = remove token a.sessions })
      else (some s, a)
]

unfoldable pub reap_sessions : ℕ → Auth → Auth
reap_sessions now a = record a { sessions = retain (λ e. leb now e.1.expires) a.sessions }
