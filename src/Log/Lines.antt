-- ===== src/Log/Lines.antt =====
-- Every call of a log_ function of general_aux.c adds one line to the file.
use feup_sope.Base.{
  ℕ, zero, suc, ◌+◌, ◌-◌, ◌^◌, ◌≤◌, ◌<◌, ◌≡◌, refl, arith, [], ◌∷◌, ◌++◌, ◌==◌, length, replicate,
  length-append, length-replicate, All, if◌then◌else◌,
}
use feup_sope.Base.Text.{Bytes}
use feup_sope.Base.Word.{ℤ, pos, negsuc, to_int}
use feup_sope.Base.Format.{print_dec, pad_left, zero_dec, blank_dec}
use feup_sope.Base.Format.Decimal.{IsDigit, length-print_dec, print_dec-IsDigit}

-- How many newlines there are.
abbrev pub newlines : Bytes → ℕ
newlines [] = 0
newlines (c ∷ cs) = if c == 10 then suc (newlines cs) else newlines cs

pub newlines-append : (s t : Bytes) → newlines (s ++ t) ≡ newlines s + newlines t
newlines-append [] t = omega arith
newlines-append (c ∷ cs) t = ground (arith, newlines-append cs t)

pub newlines-replicate : (n : ℕ) → newlines (replicate n b' ') ≡ 0
newlines-replicate zero = refl
newlines-replicate (suc n) = newlines-replicate n

newlines-IsDigit : (s : Bytes) → All IsDigit s → newlines s ≡ 0
newlines-IsDigit [] h = refl
newlines-IsDigit (c ∷ cs) h = ground (arith, newlines-IsDigit cs h.1)

pub newlines-print_dec : (n : ℕ) → newlines (print_dec n) ≡ 0
newlines-print_dec n = newlines-IsDigit (print_dec n) (print_dec-IsDigit n)

pub newlines-zeros : (n : ℕ) → newlines (replicate n b'0') ≡ 0
newlines-zeros zero = refl
newlines-zeros (suc n) = newlines-zeros n

pub ruleset plain = (newlines-append, newlines-replicate, newlines-zeros, newlines-print_dec)

pub newlines-zero_dec : (w : ℕ) (z : ℤ) → newlines (zero_dec w z) ≡ 0
unfolding zero_dec
newlines-zero_dec w (pos n) = simp plain refl
newlines-zero_dec w (negsuc n) = simp plain refl

pub newlines-blank_dec : (w : ℕ) (z : ℤ) → newlines (blank_dec w z) ≡ 0
unfolding blank_dec
newlines-blank_dec w (pos n) = simp plain refl
newlines-blank_dec w (negsuc n) = simp plain refl

length-field : (c w : ℕ) (s : Bytes) → length (pad_left c w s) ≤ w + length s
length-field c w s =
    omega (arith, length-append (replicate (w - length s) c) s, length-replicate (w - length s) c)

pub length-zero_dec : (w n : ℕ) → n < 2 ^ 32 → length (zero_dec w (to_int n)) ≤ w + 11
unfolding zero_dec
length-zero_dec w n h = ground (
  arith,
  length-field b'0' w (print_dec n),
  length-print_dec n 9 (omega arith),
  length-field b'0' (w - 1) (print_dec (2 ^ 32 - n)),
  length-print_dec (2 ^ 32 - n) 9,
)

pub length-blank_dec : (w n : ℕ) → n < 2 ^ 32 → length (blank_dec w (to_int n)) ≤ w + 11
unfolding blank_dec
length-blank_dec w n h = ground (
  arith,
  length-field b' ' w (print_dec n),
  length-print_dec n 9 (omega arith),
  length-field b' ' w (b'-' ∷ print_dec (2 ^ 32 - n)),
  length-print_dec (2 ^ 32 - n) 9,
)

-- The last byte.
abbrev pub last_or : ℕ → Bytes → ℕ
last_or d [] = d
last_or d (c ∷ cs) = last_or c cs

pub last_or-append : (d : ℕ) (s t : Bytes) → last_or d (s ++ t) ≡ last_or (last_or d s) t
last_or-append d [] t = refl
last_or-append d (c ∷ cs) t = last_or-append c cs t

-- A text that is one line, and shorter than what POSIX lets a pipe take at once.
abbrev pub IsEntry : Bytes → Type 0
IsEntry s = (newlines s ≡ 1) × (last_or 0 s ≡ 10) × (length s < 512)
