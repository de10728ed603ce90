-- ===== src/Auth/Access.antt =====
-- Who passes the request gate of internal/arcade/auth.go.
use teploy_arcade.Prelude.{
  Bytes, ℕ, ◌≤◌, String, ◌≡◌, refl, sym, ap, ◌∙◌, inl, inr, Bool, true, false, not, ◌&&◌, Option,
  none, some, [], ◌∷◌, arith, ltb, if◌then◌else◌, Bool-cases, Option-cases, Assoc, lookup, insert,
  string_key,
}
use teploy_arcade.Text.{to_lower, bytes_key}
use teploy_arcade.Auth.State.{
  User, Session, Auth, role_rank, is_empty, check_new_user, setup_required,
}
use teploy_arcade.Auth.Accounts.{new_user, create_locked, create_first_user, must_change_password}
use teploy_arcade.Auth.Sessions.{session}
use teploy_arcade.Auth.Gate.{gate, request, pass, unavailable, sign_in, forbidden, password_due}
use teploy_arcade.Auth.Commit.{IsAuth}
use teploy_arcade.Auth.Revoke.{Changes, commit-Changes}

-- In a valid state of the accounts, a panel that waits for its first administrator, its setup gate
-- armed, answers every request that goes through the gate with 503, whatever cookie it carries.
pub request-setup_required :
    (a : Auth) (cookie : Option String) (role : String) (lockout : Bool) (now : ℕ)
    → IsAuth a
    → setup_required a ≡ true
    → request cookie role lockout now a ≡ unavailable
unfolding request gate setup_required
request-setup_required a none role lockout now v closed =
    let off : a.enabled ≡ false = v.enforced ∙ ground arith in rw (off, closed) refl
request-setup_required a (some token) role lockout now v closed =
    let off : a.enabled ≡ false = v.enforced ∙ ground arith in
    elim (Option-cases (lookup token a.sessions)) [
      | inl away ↦ rw (away, session) (rw (off, closed) refl)
      | inr (s, there) ↦ elim (Bool-cases (ltb s.expires now)) [
        | inl old ↦ rw (there, session, old) (rw (off, closed) refl)
        | inr live ↦ rw (there, session, live) (rw (off, closed) refl)
      ]
    ]

-- What a request that passes has shown.
pub record Shown (a : Auth) (cookie : Option String) (role : String) (lockout : Bool) (now : ℕ)
    : Type 0 where
  pub token : String
  pub held : Session
  pub carried : cookie ≡ some token
  pub stored : lookup token a.sessions ≡ some held
  pub fresh : now ≤ held.expires
  pub ranked : role_rank role ≤ role_rank held.role
  pub unlocked : (lockout && must_change_password held.user a) ≡ false

not-ltb : (m n : ℕ) → ltb m n ≡ false → n ≤ m
not-ltb m n h = ground arith

gate_passed :
    (role : String) (lockout : Bool) (s : Session) (a : Auth)
    → a.enabled ≡ true
    → gate role lockout (some s) a a ≡ pass
    → (role_rank role ≤ role_rank s.role) × ((lockout && must_change_password s.user a) ≡ false)
unfolding gate
gate_passed role lockout s a on passed =
    elim (Bool-cases (ltb (role_rank s.role) (role_rank role))) [
      | inl low ↦
          absurd (
            let no : gate role lockout (some s) a a ≡ forbidden = rw (on, low) refl in ground arith)
      | inr high ↦ elim (Bool-cases (lockout && must_change_password s.user a)) [
        | inl due ↦ absurd (
            let no : gate role lockout (some s) a a ≡ password_due = rw (on, high, due) refl in
            ground arith)
        | inr free ↦ (not-ltb (role_rank s.role) (role_rank role) high, free)
      ]
    ]

pub session_live :
    (token : String) (now : ℕ) (s : Session) (a : Auth)
    → lookup token a.sessions ≡ some s
    → ltb s.expires now ≡ false
    → session token now a ≡ (some s, a)
unfolding session
session_live token now s a there live = rw (there, session, live) refl

request_live :
    (role : String) (lockout : Bool) (token : String) (now : ℕ) (s : Session) (a : Auth)
    → lookup token a.sessions ≡ some s
    → ltb s.expires now ≡ false
    → request (some token) role lockout now a ≡ gate role lockout (some s) a a
unfolding request
request_live role lockout token now s a there live =
    ap (λ (r : Option Session × Auth). gate role lockout r.0 r.1 r.1)
      (session_live token now s a there live)

-- While enforcement is on, a request that passes the gate carries the token of a stored session that
-- has not expired, whose role ranks at least as high as the route's, and whose account, on a
-- route with the lockout, has no password to change. No other call comes between the two parts of the
-- request.
pub request-Shown :
    (a : Auth) (cookie : Option String) (role : String) (lockout : Bool) (now : ℕ)
    → a.enabled ≡ true
    → request cookie role lockout now a ≡ pass
    → Shown a cookie role lockout now
unfolding request gate session
request-Shown a none role lockout now on passed =
    absurd (let no : request none role lockout now a ≡ sign_in = rw on refl in ground arith)
request-Shown a (some token) role lockout now on passed =
    elim (Option-cases (lookup token a.sessions)) [
      | inl away ↦ absurd (
          let no : request (some token) role lockout now a ≡ sign_in =
            rw (away, session) (rw on refl) in
          ground arith)
      | inr (s, there) ↦ elim (Bool-cases (ltb s.expires now)) [
        | inl old ↦ absurd (
            let no : request (some token) role lockout now a ≡ sign_in =
              rw (there, session, old) (rw on refl) in
            ground arith)
        | inr live ↦
            (let answer : request (some token) role lockout now a ≡ gate role lockout (some s) a a =
                request_live role lockout token now s a there live in
              let (ranked, unlocked) = gate_passed role lockout s a on (sym answer ∙ passed) in
              record {
                token = token;
                held = s;
                carried = refl;
                stored = there;
                fresh = not-ltb s.expires now live;
                ranked = ranked;
                unlocked = unlocked;
              })
      ]
    ]

empty_list : (users : Assoc Bytes User) → not (is_empty users) ≡ false → users ≡ []
unfolding is_empty
empty_list [] h = refl
empty_list (u ∷ users) h = absurd (let no : true ≡ false = h in ground arith)

first_lookup : (key : Bytes) (users : Assoc Bytes User) → users ≡ [] → lookup key users ≡ none
unfolding lookup
first_lookup key users e = rw e refl

first_insert :
    (key : Bytes) (u : User) (users : Assoc Bytes User)
    → users ≡ []
    → insert key u users ≡ (key, u) ∷ []
unfolding insert
first_insert key u users e = rw e refl

not_required :
    (b : Auth) (u : Bytes × User) (others : Assoc Bytes User)
    → b.users ≡ u ∷ others
    → setup_required b ≡ false
unfolding setup_required
not_required b u others e = rw e (ground arith)

turned_away :
    (role : String) (lockout : Bool) (at : ℕ) (b : Auth) (forced : Bool)
    → b.enabled ≡ not forced
    → setup_required b ≡ false
    → request none role lockout at b ≡ (if forced then pass else sign_in)
unfolding request gate
turned_away role lockout at b true e open_gate = rw (e, open_gate) refl
turned_away role lockout at b false e open_gate = rw e refl

-- Creating the first account is refused and changes nothing, or the panel had none; then there is one
-- account, an administrator, setup is over, and a request without a session is turned away with 401
-- (unless enforcement was switched off).
pub create_first_user-Changes :
    (kdf : Bytes → Bytes → Bytes) (saved : Bool) (now : ℕ) (salt : Option Bytes)
    (name password : Bytes) (a : Auth)
    → Changes
        (λ u b.
          (a.users ≡ [])
          × (b.users ≡ (to_lower name, u) ∷ [])
          × (u.role ≡ "admin")
          × (u.must_change ≡ false)
          × (setup_required b ≡ false)
          × ((role : String) (lockout : Bool) (at : ℕ)
              → request none role lockout at b ≡ (if a.forced then pass else sign_in)))
        a
        (create_first_user kdf saved now salt name password a)
unfolding create_first_user new_user
create_first_user-Changes kdf saved now none name password a =
    elim (Option-cases (check_new_user name password "admin")) [
      | inr (why, bad) ↦ rw (bad, create_first_user) refl
      | inl good ↦ rw (good, create_first_user) refl
    ]
create_first_user-Changes kdf saved now (some s) name password a =
    elim (Option-cases (check_new_user name password "admin")) [
      | inr (why, bad) ↦ rw (bad, create_first_user) refl
      | inl good ↦
          rw (good, create_first_user)
            (elim (Bool-cases (not (is_empty a.users))) [
              | inl claimed ↦ rw claimed refl
              | inr free ↦ rw free (
                  let unclaimed = empty_list a.users free in
                  let u = new_user name "admin" s (kdf password s) now true in
                  let one = first_insert (to_lower name) u a.users unclaimed in
                  rw (first_lookup (to_lower name) a.users unclaimed, create_locked)
                    (commit-Changes _ saved _ u (λ m. m) a
                      (
                        unclaimed,
                        one,
                        refl,
                        refl,
                        not_required _ _ _ one,
                        (λ role lockout at.
                            turned_away role lockout at _ a.forced (rw one (ground arith))
                              (not_required _ _ _ one)),
                      )))
            ])
    ]
