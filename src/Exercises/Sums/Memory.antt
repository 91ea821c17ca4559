-- ===== src/Exercises/Sums/Memory.antt =====
-- The bytes of an int: what is written of it is what is read.
use feup_sope.Base.{ℕ, ◌+◌, ◌*◌, ◌/◌, ◌%◌, ◌≡◌, arith, true}
use feup_sope.Base.Word.{ℤ, pos, negsuc, to_int, of_int}
use feup_sope.Exercises.Sums.{is_int}

pub to_int-of_int : (z : ℤ) → is_int z ≡ true → to_int (of_int z) ≡ z
to_int-of_int (pos n) h = ground arith
to_int-of_int (negsuc n) h = ground arith

pub word_of_bytes :
    (w : ℕ)
    → w % 256 + 256 * (w / 256 % 256) + 65536 * (w / 65536 % 256) + 16777216 * (w / 16777216) ≡ w
word_of_bytes w = omega arith
