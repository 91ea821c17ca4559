-- ===== src/Exercises/Typed/Tests.antt =====
-- A password and lines that are typed.
use feup_sope.Base.{arith, ℕ, zero, suc, ◌≡◌, refl, some, List, [], ◌∷◌, ◌++◌}
use feup_sope.Base.Text.{Bytes, codes}
use feup_sope.Base.Stdio.{c_string}
use feup_sope.Base.Word.{ℤ, pos}
use feup_sope.Exercises.Typed.{
  key, no_answer, wrote, raw, old, read_pass, read_password, block, p4a, overwritten,
}
use feup_sope.Exercises.Typed.Secret.{keys_of}
use feup_sope.Exercises.Typed.Grades.{blocks_of, IsSaved, p4a-saves}

read_ab :
    read_password 0 (keys_of (codes "ab") ++ key 10 ∷ key 99 ∷ [])
    ≡ some (
      wrote (codes "\nPassword? ")
          ∷ raw
          ∷ wrote (b'*' ∷ [])
          ∷ wrote (b'*' ∷ [])
          ∷ old
          ∷ wrote (codes "\n\nPassword: ")
          ∷ wrote (codes "ab")
          ∷ wrote (10 ∷ [])
          ∷ [],
      key 99 ∷ [],
    )
unfolding read_password read_pass c_string
read_ab = refl

-- A read that fails stores the character before once more.
read_twice :
    read_pass 20 0 (key 97 ∷ no_answer ∷ key 10 ∷ [])
    ≡ some (record { pass = 97 ∷ 97 ∷ []; left = [] })
unfolding read_pass
read_twice = refl

-- The second line is not taken as a whole.
abbrev full_disk : ℕ → Bytes → ℤ
full_disk zero bytes = pos 3
full_disk (suc k) bytes = pos 1

abbrev two_lines : List Bytes
two_lines = codes "Ana" ∷ codes "15" ∷ []

saved :
    p4a 1 (some (codes "abcdefgh")) full_disk (blocks_of two_lines ++ block (10 ∷ []) ∷ [])
    ≡ some (2, some (codes "Ana1efgh"))
unfolding p4a
saved = refl

p4a-saves_example :
    (code : ℕ) × (written : Bytes) × (p4a 1
        (some (codes "abcdefgh"))
        full_disk
        (blocks_of two_lines ++ block (10 ∷ []) ∷ [])
      ≡ some (code, some (overwritten (codes "abcdefgh") written)))
    × IsSaved full_disk two_lines code written
p4a-saves_example =
    p4a-saves full_disk (codes "abcdefgh") two_lines (10 ∷ []) [] (omega arith, (omega arith, tt))
      (omega arith)
