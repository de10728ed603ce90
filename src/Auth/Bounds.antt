-- ===== src/Auth/Bounds.antt =====
-- The bounds on the table of sessions in internal/arcade/auth.go.
use teploy_arcade.Prelude.{
  Bytes, ℕ, ◌+◌, ◌≤◌, ◌<◌, String, ◌≡◌, refl, inl, inr, Bool, true, not, ◌&&◌, ◌||◌, [], ◌∷◌, arith,
  ltb, leb, if◌then◌else◌, ◌==◌, Bool-cases, Option-cases, length, retain, length-retain-le, Assoc,
  lookup, remove, insert, length-insert-le, length-remove-le, string_key,
}
use teploy_arcade.Text.{to_lower, bytes_beq_iff, bytes_key}
use teploy_arcade.Auth.State.{User, Session, Auth, equal_fold}
use teploy_arcade.Auth.Sessions.{
  live_sessions, active, max_user_sessions, max_sessions, new_session, mint_session,
}

-- No more sessions than the table may hold, and no more of one user than one user may have.
pub record IsBounded (a : Auth) : Type 0 where
  pub all_users : length a.sessions ≤ max_sessions
  pub one_user : (user : Bytes) → active user a.sessions ≤ max_user_sessions

active-retain-le :
    (p : String × Session → Bool) (user : Bytes) (m : Assoc String Session)
    → active user (retain p m) ≤ active user m
unfolding active retain
active-retain-le p user [] = omega arith
active-retain-le p user ((token, s) ∷ m) = elim (Bool-cases (p (token, s))) [
  | inl kept ↦ let rest = active-retain-le p user m in rw kept (ground arith)
  | inr gone ↦ let rest = active-retain-le p user m in rw gone (ground arith)
]

active-insert-le :
    (token : String) (s : Session) (user : Bytes) (m : Assoc String Session)
    → active user (insert token s m) ≤ active user m + (if equal_fold s.user user then 1 else 0)
unfolding active insert
active-insert-le token s user [] = ground arith
active-insert-le token s user ((other, old) ∷ m) = ground (arith, active-insert-le token s user m)

active_fold :
    (user other : Bytes) (m : Assoc String Session)
    → equal_fold user other ≡ true
    → active user m ≡ active other m
unfolding active equal_fold
active_fold user other [] e = refl
active_fold user other ((token, s) ∷ m) e =
    let same : to_lower user ≡ to_lower other =
      (bytes_beq_iff (to_lower user) (to_lower other)).0 e in
    rw (same, active_fold user other m e) refl

active-remove-le :
    (token : String) (user : Bytes) (m : Assoc String Session)
    → active user (remove token m) ≤ active user m
unfolding active remove
active-remove-le token user [] = omega arith
active-remove-le token user ((other, s) ∷ m) = ground (arith, active-remove-le token user m)

kept-IsBounded :
    (p : String × Session → Bool) (a b : Auth)
    → b.sessions ≡ retain p a.sessions
    → IsBounded a
    → IsBounded b
kept-IsBounded p a b e v = record {
  all_users =
      let fewer = length-retain-le p a.sessions in let all = v.all_users in rw e (omega arith);
  one_user = λ user.
      let fewer = active-retain-le p user a.sessions in
      let one = v.one_user user in rw e (omega arith);
}

removed-IsBounded :
    (token : String) (a b : Auth) → b.sessions ≡ remove token a.sessions → IsBounded a → IsBounded b
removed-IsBounded token a b e v = record {
  all_users =
      let fewer = length-remove-le token a.sessions in let all = v.all_users in rw e (omega arith);
  one_user = λ user.
      let fewer = active-remove-le token user a.sessions in
      let one = v.one_user user in rw e (omega arith);
}

stored-IsBounded :
    (s : Session) (token : String) (live : Assoc String Session) (a : Auth)
    → IsBounded (record a { sessions = live })
    → active s.user live < max_user_sessions
    → length live < max_sessions
    → IsBounded (record a { sessions = insert token s live })
stored-IsBounded s token live a v own room = record {
  all_users = let more = length-insert-le token s live in omega arith;
  one_user = λ user.
      let more = active-insert-le token s user live in
      let one : active user live ≤ max_user_sessions = v.one_user user in
      elim (Bool-cases (equal_fold s.user user)) [
        | inl same ↦ let equal = active_fold s.user user live same in ground arith
        | inr other ↦ ground arith
      ];
}

-- From a table of at most 4096 sessions, of at most 32 for one user whatever the case of the
-- letters of the name, signing in, refused or granted, leads to such a table.
pub mint_session-IsBounded :
    (now : ℕ) (name : Bytes) (p : User × String) (a : Auth)
    → IsBounded a
    → IsBounded (mint_session now name p a).1
unfolding mint_session live_sessions
mint_session-IsBounded now name (snap, token) a v =
    let fresh : String × Session → Bool = λ e. ltb now e.1.expires in
    let live = live_sessions now a.sessions in
    elim (Option-cases (lookup (to_lower name) a.users)) [
      | inl away ↦ rw (away, mint_session) v
      | inr (u, there) ↦
          rw (there, mint_session)
            (elim (Bool-cases (not (u.salt == snap.salt && u.hash == snap.hash))) [
              | inl moved ↦ rw moved v
              | inr current ↦
                  rw current
                    (elim (Bool-cases (
                      leb max_user_sessions (active snap.name live)
                      || leb max_sessions (length live))) [
                        | inl full ↦ rw full (kept-IsBounded fresh a _ refl v)
                        | inr free ↦ rw free (
                            stored-IsBounded (new_session token snap u now) token live a
                              (kept-IsBounded fresh a _ refl v) (ground arith) (ground arith))
                      ])
            ])
    ]
