-- ===== src/Scheduler/Format.antt =====
-- The times that `parseClock` of internal/arcade/scheduler.go reads.
use teploy_arcade.Prelude.{
  nat_key, Bytes, ℕ, ◌+◌, ◌-◌, ◌*◌, ◌/◌, ◌%◌, ◌^◌, ◌≤◌, ◌<◌, ◌≡◌, refl, ap, ◌∙◌, true, false, some,
  [], ◌∷◌, ◌++◌, arith, ◌==◌, lt→ltb, string_key,
}
use teploy_arcade.Prelude.Int.{pos_part, pos}
use teploy_arcade.Text.{
  is_space, is_digit, trim_left, trim_space, digits_value, parse_int, atoi, split_at,
}
use teploy_arcade.Scheduler.Clock.{all_digits, clock_field, clock_time, clock_parts, parse_clock}

-- A number below 100 as two digits.
abbrev pub two_digits : ℕ → Bytes
two_digits n = (48 + n / 10) ∷ (48 + n % 10) ∷ []

abbrev pub clock_text : ℕ → ℕ → ℕ → Bytes
clock_text h m sec = two_digits h ++ 58 ∷ two_digits m ++ 58 ∷ two_digits sec

-- What two digits are not.
abbrev pub Digit : ℕ → Type 0
Digit c = (48 ≤ c) × (c ≤ 57)

not_space : (c : ℕ) → Digit c → is_space c ≡ false
unfolding is_space
not_space c d = ground arith

not_colon : (c : ℕ) → Digit c → (c == 58) ≡ false
not_colon c d = ground arith

trimmed :
    (a b c d e f : ℕ)
    → Digit a
    → Digit f
    → trim_space (a ∷ b ∷ 58 ∷ c ∷ d ∷ 58 ∷ e ∷ f ∷ []) ≡ a ∷ b ∷ 58 ∷ c ∷ d ∷ 58 ∷ e ∷ f ∷ []
unfolding trim_space trim_left
trimmed a b c d e f da df = rw (not_space a da) (rw (not_space f df) refl)

parted :
    (a b c d e f : ℕ)
    → Digit a
    → Digit b
    → Digit c
    → Digit d
    → Digit e
    → Digit f
    → split_at 58 (a ∷ b ∷ 58 ∷ c ∷ d ∷ 58 ∷ e ∷ f ∷ [])
      ≡ (a ∷ b ∷ []) ∷ (c ∷ d ∷ []) ∷ (e ∷ f ∷ []) ∷ []
unfolding split_at
parted a b c d e f da db dc dd de df =
    rw
      (
        not_colon a da,
        not_colon b db,
        not_colon c dc,
        not_colon d dd,
        not_colon e de,
        not_colon f df,
      )
      refl

is_digit-Digit : (c : ℕ) → Digit c → is_digit c ≡ true
unfolding is_digit
is_digit-Digit c d = ground arith

not_sign : (c k : ℕ) → Digit c → k < 48 → (c == k) ≡ false
not_sign c k d low = ground arith

number_read : (a b : ℕ) → Digit a → Digit b → atoi (a ∷ b ∷ []) ≡ pos ((a - 48) * 10 + (b - 48))
unfolding atoi trim_space trim_left parse_int digits_value
number_read a b da db =
    rw
      (
        not_space a da,
        trim_left,
        not_space b db,
        parse_int,
        not_sign a 45 da (omega arith),
        not_sign a 43 da (omega arith),
        digits_value,
        is_digit-Digit a da,
        is_digit-Digit b db,
      )
      (rw (lt→ltb ((0 + (a - 48)) * 10 + (b - 48)) (2 ^ 63) (omega arith)) (ap pos (omega arith)))

field_read :
    (a b : ℕ) → Digit a → Digit b → clock_field (a ∷ b ∷ []) ≡ some ((a - 48) * 10 + (b - 48))
unfolding clock_field all_digits
field_read a b da db =
    rw (is_digit-Digit a da, is_digit-Digit b db)
      (ap (λ n. some (pos_part n)) (number_read a b da db))

two_digits-Digit : (n : ℕ) → n < 100 → Digit (48 + n / 10) × Digit (48 + n % 10)
two_digits-Digit n h = ((omega arith, omega arith), (omega arith, omega arith))

field_value : (n : ℕ) → n < 100 → clock_field (two_digits n) ≡ some n
field_value n h =
    let (tens, units) = two_digits-Digit n h in
    let back : (48 + n / 10 - 48) * 10 + (48 + n % 10 - 48) ≡ n = omega arith in
    field_read (48 + n / 10) (48 + n % 10) tens units ∙ ap some back

clock_time_in_day :
    (h m sec : ℕ) → h < 24 → m < 60 → sec < 60 → clock_time h m sec ≡ some (h * 3600 + m * 60 + sec)
unfolding clock_time
clock_time_in_day h m sec h24 m60 s60 = ground arith

-- A time of day written as two digits each of hours, minutes and seconds is read back as that second
-- of the day.
pub parse_clock-clock_text :
    (h m sec : ℕ)
    → h < 24
    → m < 60
    → sec < 60
    → parse_clock (clock_text h m sec) ≡ some (h * 3600 + m * 60 + sec)
unfolding parse_clock clock_parts
parse_clock-clock_text h m sec h24 m60 s60 =
    let (a, b) = two_digits-Digit h (omega arith) in
    let (c, d) = two_digits-Digit m (omega arith) in
    let (e, f) = two_digits-Digit sec (omega arith) in
    rw
      (
        trimmed _ (48 + h % 10) (48 + m / 10) (48 + m % 10) (48 + sec / 10) _ a f,
        parted _ _ _ _ _ _ a b c d e f,
        clock_parts,
        field_value h (omega arith),
        field_value m (omega arith),
        field_value sec (omega arith),
      )
      (clock_time_in_day h m sec h24 m60 s60)
