-- ===== src/Exercises/Typed/Grades.antt =====
-- What Exercises/prob02/p4a.c saves of what is typed.
use feup_sope.Base.{
  ◌≢◌, flatten, ℕ, zero, suc, ◌+◌, ◌≤◌, ◌<◌, ◌≡◌, refl, ap, ◌∙◌, sym, arith, ◌==◌, leb, false, some,
  List, [], ◌∷◌, ◌++◌, length, take, drop, All, ◌⊎◌, inl, inr, Bool-cases,
}
use mathlib.Core.List.{append_assoc}
use feup_sope.Base.Text.{Bytes}
use feup_sope.Base.Word.{ℤ}
use feup_sope.Exercises.Typed.{Block, block, Saved, save_lines, overwritten, p4a, amount, result}

abbrev pub blocks_of : List Bytes → List Block
blocks_of [] = []
blocks_of (line ∷ lines) = block line ∷ blocks_of lines

-- A call of `write` that does not take what it is given.
abbrev pub TakesLess : (ℕ → Bytes → ℤ) → Type 0
TakesLess write = (k : ℕ) × (line : Bytes) × (amount (write k line) ≢ length line)

-- The whole of the lines with code 0, or a front of them with code 2.
abbrev pub IsSaved : (ℕ → Bytes → ℤ) → List Bytes → ℕ → Bytes → Type 0
IsSaved write lines code written =
    ((code ≡ 0) × (written ≡ flatten lines))
    ⊎ ((code ≡ 2) × TakesLess write × ((missing : Bytes) × (written ++ missing ≡ flatten lines)))

take-drop : (n : ℕ) (xs : Bytes) → take n xs ++ drop n xs ≡ xs
take-drop zero xs = refl
take-drop (suc n) [] = refl
take-drop (suc n) (x ∷ xs) = ap (λ t. x ∷ t) (take-drop n xs)

save_lines-IsSaved :
    (write : ℕ → Bytes → ℤ) (k : ℕ) (lines : List Bytes) (last : Bytes) (later : List Block)
    → All (λ line. 1 < length line) lines
    → length last ≤ 1
    → (s : Saved) × (save_lines write k (blocks_of lines ++ block last ∷ later) ≡ some s)
      × IsSaved write lines s.code s.written
unfolding save_lines
save_lines-IsSaved write k [] last later h short =
    (record { code = 0; written = [] }, ground (arith, short), inl (refl, refl))
save_lines-IsSaved write k (line ∷ lines) last later h short =
    let long : leb (length line) 1 ≡ false = ground (arith, h.0) in
    elim (Bool-cases (amount (write k line) == length line)) [
      | inl e ↦
          let (s, run, saved) = save_lines-IsSaved write (k + 1) lines last later h.1 short in
          (
            record s { written = line ++ s.written },
            rw (long, e, run) refl,
            elim saved [
              | inl (c, w) ↦ inl (c, ap (λ t. line ++ t) w)
              | inr (c, less, (missing, w)) ↦
                  inr (
                    c,
                    less,
                    (missing, append_assoc line s.written missing ∙ ap (λ t. line ++ t) w),
                  )
            ],
          )
      | inr e ↦
          let front : Bytes = take (amount (write k line)) line in
          (
            record { code = 2; written = take (amount (write k line)) line },
            rw (long, e) refl,
            inr (
              refl,
              (k, line, λ same. ground (arith, e, same)),
              (
                drop (amount (write k line)) line ++ flatten lines,
                sym (append_assoc front (drop (amount (write k line)) line) (flatten lines))
                    ∙ ap (λ t. t ++ flatten lines) (take-drop (amount (write k line)) line),
              ),
            ),
          )
    ]

-- For lines of more than one byte, and then one of at most one byte: p4a.c, given a file that opens,
-- returns 0 and has the whole of the lines at the start of the file, or, where a call of write has not
-- taken a whole line, returns 2 and has a front of them there. What the file had behind that, it keeps.
pub p4a-saves :
    (write : ℕ → Bytes → ℤ) (content : Bytes) (lines : List Bytes) (last : Bytes)
    (later : List Block)
    → All (λ line. 1 < length line) lines
    → length last ≤ 1
    → (code : ℕ) × (written : Bytes) × (p4a 1
          (some content)
          write
          (blocks_of lines ++ block last ∷ later)
        ≡ some (code, some (overwritten content written)))
      × IsSaved write lines code written
unfolding p4a
p4a-saves write content lines last later h short =
    let (s, run, saved) = save_lines-IsSaved write 0 lines last later h short in
    (s.code, s.written, ap (result content) run, saved)
