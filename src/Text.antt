-- ===== src/Text.antt =====
-- The standard library's functions on text that the program uses, on the bytes of a string: `atoi` of
-- internal/arcade/model.go, with strings.TrimSpace and strconv.Atoi below it, strings.ToLower,
-- strings.Cut and strings.Split. Spaces and letters outside ASCII are not modelled.
use teploy_arcade.Prelude.{
  Bytes, ℕ, zero, suc, ◌+◌, ◌-◌, ◌*◌, ◌^◌, Bool, true, false, ◌&&◌, ◌||◌, Option, none, some, List,
  [], ◌∷◌, map, leb, ltb, if◌then◌else◌, ◌==◌, ◌>>=◌, nat_key, Key, ◌≡◌, ◌↔◌, arith, nat_beq_iff,
}
use mathlib.Core.List.{reverse}
use teploy_arcade.Prelude.Int.{ℤ, pos, negsuc}

unfoldable pub is_space : ℕ → Bool
is_space c = c == 32 || (leb 9 c && leb c 13)

unfoldable pub is_digit : ℕ → Bool
is_digit c = leb 48 c && leb c 57

unfoldable pub lower_byte : ℕ → ℕ
lower_byte c = if leb 65 c && leb c 90 then c + 32 else c

unfoldable pub to_lower : Bytes → Bytes
unfolding lower_byte
to_lower = map lower_byte

unfoldable pub trim_left : Bytes → Bytes
unfolding is_space
trim_left [] = []
trim_left (c ∷ s) = let rest = trim_left s in if is_space c then rest else c ∷ s

unfoldable pub trim_space : Bytes → Bytes
unfolding trim_left
trim_space s = reverse (trim_left (reverse (trim_left s)))

-- The value of a text of digits, from `n` on; `none` if another byte stands in it.
unfoldable pub digits_value : ℕ → Bytes → Option ℕ
unfolding is_digit
digits_value n [] = some n
digits_value n (c ∷ s) =
    let rest = digits_value (n * 10 + (c - 48)) s in if is_digit c then rest else none

abbrev non_empty : Bytes → Option Bytes
non_empty [] = none
non_empty (c ∷ s) = some (c ∷ s)

abbrev as_pos : ℕ → Option ℤ
as_pos n = if ltb n (2 ^ 63) then some (pos n) else none

abbrev as_neg : ℕ → Option ℤ
as_neg zero = some (pos 0)
as_neg (suc n) = if ltb n (2 ^ 63) then some (negsuc n) else none

-- strconv.Atoi: an optional sign and digits, within the range of an int64.
unfoldable pub parse_int : Bytes → Option ℤ
unfolding digits_value
parse_int [] = none
parse_int (c ∷ s) =
    if c == 45
    then (non_empty s >>= digits_value 0 >>= as_neg)
    else if c == 43
    then (non_empty s >>= digits_value 0 >>= as_pos)
    else (digits_value 0 (c ∷ s) >>= as_pos)

abbrev or_zero : Option ℤ → ℤ
or_zero none = pos 0
or_zero (some n) = n

unfoldable pub atoi : Bytes → ℤ
unfolding parse_int trim_space
atoi s = or_zero (parse_int (trim_space s))

-- strings.Cut: what stands before the separator and after it, all of the text if there is none.
unfoldable pub cut_at : ℕ → Bytes → Bytes × Bytes
cut_at sep [] = ([], [])
cut_at sep (c ∷ s) =
    let (before, after) = cut_at sep s in if c == sep then ([], s) else (c ∷ before, after)

add_head : ℕ → List Bytes → List Bytes
add_head c [] = (c ∷ []) ∷ []
add_head c (part ∷ parts) = (c ∷ part) ∷ parts

-- strings.Split at one byte: always one part more than there are separators.
unfoldable pub split_at : ℕ → Bytes → List Bytes
unfolding add_head
split_at sep [] = [] ∷ []
split_at sep (c ∷ s) =
    let parts = split_at sep s in if c == sep then [] ∷ parts else add_head c parts

abbrev bytes_beq : Bytes → Bytes → Bool
bytes_beq [] [] = true
bytes_beq (a ∷ s) (b ∷ t) = a == b && bytes_beq s t
bytes_beq _ _ = false

pub bytes_beq_iff : (s t : Bytes) → (bytes_beq s t ≡ true) ↔ (s ≡ t)
bytes_beq_iff [] [] = ground arith
bytes_beq_iff (a ∷ s) (b ∷ t) = ground (arith, nat_beq_iff a b, bytes_beq_iff s t)
bytes_beq_iff [] (b ∷ t) = ground arith
bytes_beq_iff (a ∷ s) [] = ground arith

instance abbrev pub bytes_key : Key Bytes
bytes_key = record { same = bytes_beq; same_iff = bytes_beq_iff }
