-- ===== src/Base/Format/Decimal.antt =====
-- The decimal digits that printf writes: how many, which bytes, and the number that atoi reads back.
use feup_sope.Base.{
  ap, ◌∙◌, Bool, ◌&&◌, ◌||◌, ◌==◌, leb, if◌then◌else◌, ℕ, zero, suc, ◌+◌, ◌*◌, ◌-◌, ◌/◌, ◌%◌, ◌^◌,
  ◌≤◌, ◌<◌, ◌≡◌, refl, arith, [], ◌∷◌, length, All, false,
}
use feup_sope.Base.Text.{Bytes, IsWord, is_empty}
use feup_sope.Base.Word.{ℤ, pos, sub_ℕ}
use feup_sope.Base.Format.{digits_from, print_dec}

-- A byte of a line, which is no newline.
abbrev pub IsDigit : ℕ → Type 0
IsDigit c = (48 ≤ c) × (c < 58)

digits_from-IsDigit :
    (fuel n : ℕ) (after : Bytes) → All IsDigit after → All IsDigit (digits_from fuel n after)
unfolding digits_from
digits_from-IsDigit zero n after h = h
digits_from-IsDigit (suc fuel) n after h =
    ground (arith, digits_from-IsDigit fuel (n / 10) ((b'0' + n % 10) ∷ after))

-- A number below 10 ^ w has at most w digits.
digits_from-width :
    (fuel n w : ℕ) (after : Bytes)
    → n < 10 ^ suc w
    → length (digits_from fuel n after) ≤ suc w + length after
unfolding digits_from
digits_from-width zero n w after h = omega arith
digits_from-width (suc fuel) n zero after h = ground arith
digits_from-width (suc fuel) n (suc w) after h =
    ground (arith, digits_from-width fuel (n / 10) w ((b'0' + n % 10) ∷ after))

-- The digits in front, read behind a number that they continue.
atoi_digits : ℕ → Bytes → ℕ
atoi_digits v [] = v
atoi_digits v (c ∷ cs) =
    let rest = atoi_digits (10 * v + (c - b'0')) cs in if leb b'0' c && leb c b'9' then rest else v

-- `isspace`
abbrev pub is_space : ℕ → Bool
is_space c = c == b' ' || (leb 9 c && leb c 13)

signed : Bytes → ℤ
unfolding atoi_digits
signed [] = pos 0
signed (c ∷ cs) =
    if c == b'-'
    then sub_ℕ 0 (atoi_digits 0 cs)
    else if c == b'+'
    then pos (atoi_digits 0 cs)
    else pos (atoi_digits 0 (c ∷ cs))

-- `atoi`, for a value that fits an int.
unfoldable pub atoi : Bytes → ℤ
unfolding signed
atoi [] = pos 0
atoi (c ∷ cs) = let rest = atoi cs in if is_space c then rest else signed (c ∷ cs)

atoi_digits-digits_from :
    (fuel n : ℕ) (after : Bytes)
    → n < fuel
    → atoi_digits 0 (digits_from fuel n after) ≡ atoi_digits n after
unfolding digits_from atoi_digits
atoi_digits-digits_from zero n after h = absurd (omega arith)
atoi_digits-digits_from (suc fuel) n after h =
    ground (arith, atoi_digits-digits_from fuel (n / 10) ((b'0' + n % 10) ∷ after))

atoi-IsDigit : (s : Bytes) → All IsDigit s → atoi s ≡ pos (atoi_digits 0 s)
unfolding atoi signed atoi_digits
atoi-IsDigit [] h = refl
atoi-IsDigit (c ∷ cs) h = ground arith

pub print_dec-IsDigit : (n : ℕ) → All IsDigit (print_dec n)
unfolding print_dec
print_dec-IsDigit n = digits_from-IsDigit (suc n) n [] tt

pub length-print_dec : (n w : ℕ) → n < 10 ^ suc w → length (print_dec n) ≤ suc w
unfolding print_dec
length-print_dec n w h = omega (arith, digits_from-width (suc n) n w [] h)

-- What printf writes for a number, atoi reads back.
pub atoi-print_dec : (n : ℕ) → atoi (print_dec n) ≡ pos n
unfolding print_dec atoi_digits
atoi-print_dec n =
    atoi-IsDigit (print_dec n) (print_dec-IsDigit n)
    ∙ ap pos (atoi_digits-digits_from (suc n) n [] (omega arith))

digits_from-nonempty :
    (fuel n : ℕ) (c : ℕ) (after : Bytes) → is_empty (digits_from fuel n (c ∷ after)) ≡ false
unfolding digits_from
digits_from-nonempty zero n c after = refl
digits_from-nonempty (suc fuel) n c after =
    ground (arith, digits_from-nonempty fuel (n / 10) (b'0' + n % 10) (c ∷ after))

IsDigit-IsWord : (s : Bytes) → All IsDigit s → All (λ c. (c == b' ') ≡ false) s
IsDigit-IsWord [] h = tt
IsDigit-IsWord (c ∷ cs) h = (ground arith, IsDigit-IsWord cs h.1)

-- A number is one word of a command.
pub print_dec-IsWord : (n : ℕ) → IsWord b' ' (print_dec n)
unfolding print_dec digits_from
print_dec-IsWord n = (
  ground (arith, digits_from-nonempty n (n / 10) (b'0' + n % 10) []),
  IsDigit-IsWord (print_dec n) (print_dec-IsDigit n),
)
