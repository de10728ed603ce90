-- ===== src/Auth/Limits.antt =====
-- The bounds on sessions and on attempts to sign in, in internal/arcade/auth.go.
use teploy_arcade.Prelude.{
  ℕ, suc, ◌+◌, ◌-◌, ◌≤◌, ◌<◌, String, ◌≡◌, refl, ◌∙◌, ◌⊎◌, inl, inr, Bool, false, not, ◌&&◌, some,
  List, [], ◌∷◌, arith, ltb, leb, if◌then◌else◌, ◌==◌, Bool-cases, Option-cases, same_refl,
  same_cases, length, length-retain-le, Assoc, lookup, lookup-insert, length-insert-le,
  length-insert_known, lookup-retain_kept, string_key,
}
use teploy_arcade.Text.{bytes_key}
use teploy_arcade.Auth.State.{Bucket, Auth}
use teploy_arcade.Auth.Gate.{minute, max_buckets, fresh_buckets, attempt, allow_login_key}

-- Attempts one after another: the key and the time of each. `limits` gives the limit of a key.
unfoldable pub tries_run : (String → ℕ) → List (String × ℕ) → Auth → List (String × Bool) × Auth
tries_run limits [] a = ([], a)
tries_run limits ((key, now) ∷ tries) a =
    let (granted, b) = allow_login_key key (limits key) now a in
    let (others, c) = tries_run limits tries b in ((key, granted) ∷ others, c)

-- How many attempts of a key were granted.
unfoldable pub grants : String → List (String × Bool) → ℕ
grants key [] = 0
grants key ((k, granted) ∷ others) =
    if k == key && granted then suc (grants key others) else grants key others

-- Every time is within the window that starts at `start`.
abbrev pub Within : ℕ → List (String × ℕ) → Type 0
Within start [] = Unit
Within start ((key, now) ∷ tries) = (now < start + minute) × Within start tries

-- The bucket of a key after an attempt of that key or of another one.
own_try :
    (key : String) (limit now : ℕ) (a : Auth) (b : Bucket)
    → lookup key a.buckets ≡ some b
    → now < b.start + minute
    → (allow_login_key key limit now a).0 ≡ not (leb limit b.attempts)
      × lookup key (allow_login_key key limit now a).1.buckets
        ≡ some (if leb limit b.attempts then b else record b { attempts = suc b.attempts })
unfolding allow_login_key fresh_buckets
own_try key limit now a b there early =
    let kept =
      lookup-retain_kept (λ e. ltb (now - e.1.start) minute) key a.buckets b there (ground arith) in
    rw (kept, allow_login_key)
      (elim (Bool-cases (leb limit b.attempts)) [
        | inl full ↦ rw full (refl, kept)
        | inr free ↦
            rw free (
              refl,
              lookup-insert key key _ (fresh_buckets now a.buckets) ∙ rw (same_refl key) refl,
            )
      ])

attempt_apart :
    (key other : String) (limit : ℕ) (b : Bucket) (kept : Assoc String Bucket)
    → (other == key) ≡ false
    → lookup key (attempt other limit b kept).1 ≡ lookup key kept
attempt_apart key other limit b kept apart = elim (Bool-cases (leb limit b.attempts)) [
  | inl full ↦ rw full refl
  | inr free ↦ rw free (lookup-insert other key _ kept ∙ rw apart refl)
]

other_try :
    (key other : String) (limit now : ℕ) (a : Auth) (b : Bucket)
    → (other == key) ≡ false
    → lookup key a.buckets ≡ some b
    → now < b.start + minute
    → lookup key (allow_login_key other limit now a).1.buckets ≡ some b
unfolding allow_login_key fresh_buckets
other_try key other limit now a b apart there early =
    let fresh = fresh_buckets now a.buckets in
    let kept : lookup key fresh ≡ some b =
      lookup-retain_kept (λ e. ltb (now - e.1.start) minute) key a.buckets b there (ground arith) in
    elim (Option-cases (lookup other fresh)) [
      | inr (c, known) ↦
          rw (known, allow_login_key) (attempt_apart key other limit c fresh apart ∙ kept)
      | inl unknown ↦
          rw (unknown, allow_login_key)
            (elim (Bool-cases (leb max_buckets (length fresh))) [
              | inl full ↦ rw full kept
              | inr room ↦ rw room (
                  attempt_apart key other limit (record { start = now; attempts = 0 }) fresh apart
                  ∙ kept)
            ])
    ]

-- When a key has a bucket within its limit, then of the attempts within the minute of that bucket
-- at most as many are granted as the limit has left, whatever attempts of other keys come in
-- between, in any number.
pub grants-le :
    (limits : String → ℕ) (tries : List (String × ℕ)) (key : String) (a : Auth) (b : Bucket)
    → lookup key a.buckets ≡ some b
    → b.attempts ≤ limits key
    → Within b.start tries
    → grants key (tries_run limits tries a).0 + b.attempts ≤ limits key
unfolding tries_run grants
grants-le limits [] key a b there fits w = omega arith
grants-le limits ((other, now) ∷ tries) key a b there fits (early, later) =
    elim (same_cases other key) [
      | inr apart ↦
          let rest =
            grants-le limits tries key (allow_login_key other (limits other) now a).1 b
              (other_try key other (limits other) now a b apart there early) fits later in
          rw apart rest
      | inl same ↦
          let (answer, stored) = own_try key (limits key) now a b there early in
          elim (Bool-cases (leb (limits key) b.attempts)) [
            | inl full ↦
                let rest =
                  grants-le limits tries key (allow_login_key key (limits key) now a).1 b
                    (stored ∙ rw full refl) fits later in
                rw (same, answer, full, same_refl key) rest
            | inr free ↦
                let rest =
                  grants-le limits tries key (allow_login_key key (limits key) now a).1
                    (record b { attempts = suc b.attempts }) (stored ∙ rw free refl) (ground arith)
                    later in
                rw (same, answer, free, same_refl key) (omega arith)
          ]
    ]

attempt-bounded :
    (key : String) (limit : ℕ) (b c : Bucket) (kept : Assoc String Bucket)
    → length kept ≤ max_buckets
    → (lookup key kept ≡ some c) ⊎ (length kept < max_buckets)
    → length (attempt key limit b kept).1 ≤ max_buckets
attempt-bounded key limit b c kept h known = elim (Bool-cases (leb limit b.attempts)) [
  | inl full ↦ rw full h
  | inr free ↦ rw free (elim known [
    | inl there ↦
        rw (length-insert_known key (record b { attempts = suc b.attempts }) c kept there) h
    | inr room ↦
        let more = length-insert-le key (record b { attempts = suc b.attempts }) kept in omega arith
  ])
]

-- From a table of at most 4096 buckets, an attempt of any key, granted or not, leads to such a
-- table.
pub allow_login_key-bounded :
    (key : String) (limit now : ℕ) (a : Auth)
    → length a.buckets ≤ max_buckets
    → length (allow_login_key key limit now a).1.buckets ≤ max_buckets
unfolding allow_login_key fresh_buckets
allow_login_key-bounded key limit now a h =
    let fresh = fresh_buckets now a.buckets in
    let fewer : length fresh ≤ length a.buckets =
      length-retain-le (λ e. ltb (now - e.1.start) minute) a.buckets in
    elim (Option-cases (lookup key fresh)) [
      | inr (c, known) ↦
          rw (known, allow_login_key)
            (attempt-bounded key limit c c fresh (omega arith) (inl known))
      | inl unknown ↦
          rw (unknown, allow_login_key)
            (elim (Bool-cases (leb max_buckets (length fresh))) [
              | inl full ↦ rw full (omega arith)
              | inr room ↦ rw room (
                  let new : Bucket = record { start = now; attempts = 0 } in
                  attempt-bounded key limit new new fresh (omega arith) (inr (ground arith)))
            ])
    ]
