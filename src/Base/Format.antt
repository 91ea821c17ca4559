-- ===== src/Base/Format.antt =====
-- The directives of printf that the programs use, on bytes.
pub mod Decimal
use Prim.Native.Nat.{ℕ, zero, suc, ◌+◌, ◌-◌, ◌/◌, ◌%◌}
use mathlib.Core.List.{[], ◌∷◌, ◌++◌}
use feup_sope.Base.Tests.{ltb, if◌then◌else◌}
use feup_sope.Base.Lists.{length, replicate}
use feup_sope.Base.Text.{Bytes}
use feup_sope.Base.Word.{ℤ, pos, negsuc}

-- The decimal digits of a number before those in `after`; each round takes one from the fuel.
unfoldable pub digits_from : ℕ → ℕ → Bytes → Bytes
digits_from zero n after = after
digits_from (suc fuel) n after =
    let digit = b'0' + n % 10 in
    let rest = digits_from fuel (n / 10) (digit ∷ after) in if ltb n 10 then digit ∷ after else rest

-- "%u". The number of digits is at most one more than the number.
unfoldable pub print_dec : ℕ → Bytes
unfolding digits_from
print_dec n = digits_from (suc n) n []

-- A field of a minimum width: "%*…" puts blanks before the text, "%-*…" behind it.
abbrev pub pad_left : ℕ → ℕ → Bytes → Bytes
pad_left c width s = replicate (width - length s) c ++ s

abbrev pub pad_right : ℕ → Bytes → Bytes
pad_right width s = s ++ replicate (width - length s) b' '

-- "%0*d": the sign comes before the zeros.
unfoldable pub zero_dec : ℕ → ℤ → Bytes
unfolding print_dec
zero_dec width (pos n) = pad_left b'0' width (print_dec n)
zero_dec width (negsuc n) = b'-' ∷ pad_left b'0' (width - 1) (print_dec (suc n))

-- "%*d"
unfoldable pub blank_dec : ℕ → ℤ → Bytes
unfolding print_dec
blank_dec width (pos n) = pad_left b' ' width (print_dec n)
blank_dec width (negsuc n) = pad_left b' ' width (b'-' ∷ print_dec (suc n))
