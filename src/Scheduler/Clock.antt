-- ===== src/Scheduler/Clock.antt =====
-- The 24-hour clock of internal/arcade/scheduler.go: `clockField` and `parseClock`.
use teploy_arcade.Prelude.{
  nat_key, Bytes, ℕ, ◌+◌, ◌*◌, ◌<◌, ◌≡◌, inl, inr, Bool, true, not, ◌&&◌, ◌||◌, Option, none, some,
  List, [], ◌∷◌, arith, ltb, if◌then◌else◌, ◌==◌, Bool-cases, ◌>>=◌, some-inj, length, string_key,
}
use teploy_arcade.Prelude.Int.{pos_part}
use teploy_arcade.Text.{is_digit, trim_space, atoi, split_at}

unfoldable pub all_digits : Bytes → Bool
all_digits [] = true
all_digits (c ∷ s) = is_digit c && all_digits s

-- `clockField`: one or two digits.
unfoldable pub clock_field : Bytes → Option ℕ
unfolding all_digits
clock_field s =
    if length s == 0 || ltb 2 (length s) || not (all_digits s)
    then none
    else some (pos_part (atoi s))

unfoldable pub clock_time : ℕ → ℕ → ℕ → Option ℕ
clock_time h m sec =
    if ltb 23 h || ltb 59 m || ltb 59 sec then none else some (h * 3600 + m * 60 + sec)

unfoldable pub clock_parts : List Bytes → Option ℕ
unfolding clock_field clock_time
clock_parts (p ∷ q ∷ []) = do h ← clock_field p; m ← clock_field q; clock_time h m 0
clock_parts (p ∷ q ∷ r ∷ []) = do
  h ← clock_field p
  m ← clock_field q
  sec ← clock_field r
  clock_time h m sec
clock_parts _ = none

-- `parseClock`: HH:MM or HH:MM:SS, as seconds since midnight.
unfoldable pub parse_clock : Bytes → Option ℕ
unfolding clock_parts
parse_clock s = clock_parts (split_at 58 (trim_space s))

clock_time-bound : (h m sec n : ℕ) → clock_time h m sec ≡ some n → n < 86400
unfolding clock_time
clock_time-bound h m sec n e = elim (Bool-cases (ltb 23 h || ltb 59 m || ltb 59 sec)) [
  | inl late ↦ absurd (let no : none ≡ some n = rw late at e in ground arith)
  | inr fine ↦ let is_n : h * 3600 + m * 60 + sec ≡ n = some-inj (rw fine at e) in ground arith
]

fields-bound :
    (o q r : Option ℕ) (n : ℕ)
    → (o >>= λ h. q >>= λ m. r >>= λ sec. clock_time h m sec) ≡ some n
    → n < 86400
fields-bound (some h) (some m) (some sec) n e = clock_time-bound h m sec n e
fields-bound none q r n e = absurd (let no : none ≡ some n = e in ground arith)
fields-bound (some h) none r n e = absurd (let no : none ≡ some n = e in ground arith)
fields-bound (some h) (some m) none n e = absurd (let no : none ≡ some n = e in ground arith)

parts-bound : (parts : List Bytes) (n : ℕ) → clock_parts parts ≡ some n → n < 86400
unfolding clock_parts
parts-bound (p ∷ q ∷ []) n e = fields-bound (clock_field p) (clock_field q) (some 0) n e
parts-bound (p ∷ q ∷ r ∷ []) n e = fields-bound (clock_field p) (clock_field q) (clock_field r) n e
parts-bound [] n e = absurd (let no : none ≡ some n = e in ground arith)
parts-bound (p ∷ []) n e = absurd (let no : none ≡ some n = e in ground arith)
parts-bound (p ∷ q ∷ r ∷ x ∷ rest) n e = absurd (let no : none ≡ some n = e in ground arith)

-- A time that is accepted, whatever the text, is a second of the day.
pub parse_clock-bound : (s : Bytes) (n : ℕ) → parse_clock s ≡ some n → n < 86400
unfolding parse_clock
parse_clock-bound s n e = parts-bound (split_at 58 (trim_space s)) n e
