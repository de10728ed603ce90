-- ===== src/Auth/State.antt =====
-- The state of `Auth` in internal/arcade/auth.go, the password hash and the commit of a set of users.
-- Names and passwords are bytes; the clock is a number of nanoseconds.
use Prim.Native.Nat.{bit_xor}
use teploy_arcade.Prelude.{
  nat_key, Bytes, ℕ, zero, suc, ◌+◌, ◌-◌, ◌*◌, ◌/◌, ◌%◌, ◌^◌, String, Bool, true, false, not, ◌&&◌,
  ◌||◌, Option, none, some, List, [], ◌∷◌, ◌++◌, length, take, ltb, if◌then◌else◌, ◌==◌, string_key,
  Assoc,
}
use teploy_arcade.Text.{to_lower, trim_space, bytes_key}

pub record User : Type 0 where
  pub name : Bytes
  pub role : String
  pub salt : Bytes
  pub hash : Bytes
  pub created_at : ℕ
  pub must_change : Bool

pub record Session : Type 0 where
  pub token : String
  pub user : Bytes
  pub role : String
  pub expires : ℕ

pub record Bucket : Type 0 where
  pub start : ℕ
  pub attempts : ℕ

pub record Auth : Type 0 where
  pub users : Assoc Bytes User
  pub sessions : Assoc String Session
  pub buckets : Assoc String Bucket
  pub enabled : Bool
  pub forced : Bool
  pub setup_gate : Bool
  pub bootstrap_token : String
  pub bootstrap_expiry : ℕ

unfoldable pub new_auth : Auth
new_auth = record {
  users = [];
  sessions = [];
  buckets = [];
  enabled = false;
  forced = false;
  setup_gate = false;
  bootstrap_token = "";
  bootstrap_expiry = 0;
}

pub data Refusal : Type 0 where
  short_name short_password long_name long_password unknown_role no_entropy : Refusal
  already_claimed user_exists save_failed invalid_credentials session_limit : Refusal
  no_such_user wrong_password same_password password_moved last_admin : Refusal

pub data Reply {ℓ} (A : Type ℓ) : Type ℓ where
  ok : A → Reply A
  refused : Refusal → Reply A

-- `roleRank`: a role that is not in the table has rank 0.
unfoldable pub role_rank : String → ℕ
role_rank role =
    if role == "viewer"
    then 1
    else if role == "operator"
    then 2
    else if role == "admin"
    then 3
    else 0

-- strings.EqualFold.
unfoldable pub equal_fold : Bytes → Bytes → Bool
equal_fold s t = to_lower s == to_lower t

abbrev xor_bytes : Bytes → Bytes → Bytes
xor_bytes (a ∷ s) (b ∷ t) = bit_xor a b ∷ xor_bytes s t
xor_bytes s _ = s

-- The block number as four bytes, high byte first.
abbrev be32 : ℕ → Bytes
be32 n = n / 2 ^ 24 % 256 ∷ n / 2 ^ 16 % 256 ∷ n / 2 ^ 8 % 256 ∷ n % 256 ∷ []

-- `mac` is HMAC-SHA256 with its key first.
module _ (mac : Bytes → Bytes → Bytes) where
  rounds : ℕ → Bytes → Bytes → Bytes → Bytes
  rounds zero password u t = t
  rounds (suc n) password u t = rounds n password (mac password u) (xor_bytes t (mac password u))

  blocks : ℕ → ℕ → Bytes → Bytes → ℕ → Bytes
  blocks zero block password salt iter = []
  blocks (suc n) block password salt iter =
      let u = mac password (salt ++ be32 block) in
      rounds (iter - 1) password u u ++ blocks n (block + 1) password salt iter

  unfoldable pub pbkdf2_key : Bytes → Bytes → ℕ → ℕ → Bytes
  unfolding blocks rounds
  pbkdf2_key password salt iter key_len =
      take key_len (blocks ((key_len + 31) / 32) 1 password salt iter)

  abbrev hex_digit : ℕ → ℕ
  hex_digit n = if ltb n 10 then 48 + n else 87 + n

  hex : Bytes → Bytes
  hex [] = []
  hex (b ∷ s) = hex_digit (b / 16) ∷ hex_digit (b % 16) ∷ hex s

  unfoldable pub hash_password : Bytes → Bytes → Bytes
  unfolding hex
  hash_password password salt = hex (pbkdf2_key password salt 120000 32)

unfoldable pub is_empty {ℓ} : {A : Type ℓ} → List A → Bool
is_empty [] = true
is_empty (x ∷ xs) = false

-- `commitUsersLocked`: the users are published only after they were saved. `saved` is whether
-- `writeFileAtomic` returned without an error.
unfoldable pub commit_users : Bool → Assoc Bytes User → Auth → Option Auth
unfolding is_empty
commit_users saved next a =
    if saved
    then some (record a {
      users = next;
      enabled = not a.forced && not (is_empty next);
      setup_gate = if is_empty next then a.setup_gate else false;
    })
    else none

unfoldable pub check_new_user : Bytes → Bytes → String → Option Refusal
unfolding role_rank
check_new_user name password role =
    if ltb (length (trim_space name)) 2
    then some short_name
    else if ltb (length password) 8
    then some short_password
    else if ltb 128 (length name)
    then some long_name
    else if ltb 1024 (length password)
    then some long_password
    else if role_rank role == 0
    then some unknown_role
    else none

unfoldable pub disable : Auth → Auth
disable a = record a { enabled = false; forced = true }

unfoldable pub setup_required : Auth → Bool
unfolding is_empty
setup_required a = a.setup_gate && not a.forced && is_empty a.users

abbrev pub bootstrap_ttl : ℕ
bootstrap_ttl = 30 * 60 * 10 ^ 9

-- `token` is what `randomHex` returned.
unfoldable pub begin_setup : Option String → ℕ → Auth → Reply (Unit {0}) × Auth
unfolding is_empty
begin_setup token now a = if not (is_empty a.users) then (ok tt, a) else elim token [
  | none ↦ (refused no_entropy, a)
  | some t ↦ (
    ok tt,
    record a { bootstrap_token = t; bootstrap_expiry = now + bootstrap_ttl; setup_gate = true },
  )
]

unfoldable pub check_bootstrap_token : String → ℕ → Auth → Bool
check_bootstrap_token supplied now a =
    if a.bootstrap_token == "" || supplied == "" || ltb a.bootstrap_expiry now
    then false
    else supplied == a.bootstrap_token
