-- ===== src/Base/Text.antt =====
-- C strings as the bytes before the terminator, and what the programs use of <string.h>.
use Prim.Native.Nat.{ℕ}
use Prim.Native.Char.{code}
use Prim.Native.String.{String}
use mathlib.Core.Path.{◌≡◌, refl, sym, ap, ◌∙◌}
use mathlib.Core.Bool.{Bool, true, false, ◌&&◌}
use mathlib.Core.List.{List, [], ◌∷◌, ◌++◌, append_assoc, append-nil}
use native.Mathlib.Omega.{arith}
use feup_sope.Base.Tests.{==_self, ◌==◌, if◌then◌else◌, Bool-cases}
use feup_sope.Base.Lists.{All}
use mathlib.Core.Logic.{inl, inr}

abbrev pub Bytes : Type 0
Bytes = List ℕ

-- The bytes of an ASCII literal.
abbrev pub codes : String → Bytes
codes String.[] = []
codes (String.◌∷◌ c s) = code c ∷ codes s

-- `strcmp(a, b) == 0`
unfoldable pub strcmp_eq : Bytes → Bytes → Bool
strcmp_eq [] [] = true
strcmp_eq [] (y ∷ ys) = false
strcmp_eq (x ∷ xs) [] = false
strcmp_eq (x ∷ xs) (y ∷ ys) = x == y && strcmp_eq xs ys

pub strcmp_eq_self : (a : Bytes) → strcmp_eq a a ≡ true
unfolding strcmp_eq
strcmp_eq_self [] = refl
strcmp_eq_self (x ∷ xs) = ground (arith, strcmp_eq_self xs)

pub eq_of_strcmp_eq : (a b : Bytes) → strcmp_eq a b ≡ true → a ≡ b
unfolding strcmp_eq
eq_of_strcmp_eq [] [] h = refl
eq_of_strcmp_eq [] (y ∷ ys) h = cc
eq_of_strcmp_eq (x ∷ xs) [] h = cc
eq_of_strcmp_eq (x ∷ xs) (y ∷ ys) h = ground (arith, eq_of_strcmp_eq xs ys)

-- `strlen(s) == 0`
abbrev pub is_empty : Bytes → Bool
is_empty [] = true
is_empty (x ∷ xs) = false

-- A word of the text is what stands between two delimiters; it grows in `word`.
abbrev end_word : Bytes → List Bytes → List Bytes
end_word [] rest = rest
end_word (c ∷ cs) rest = (c ∷ cs) ∷ rest

tokens_from : ℕ → Bytes → Bytes → List Bytes
tokens_from delim [] word = end_word word []
tokens_from delim (c ∷ cs) word =
    let here = end_word word (tokens_from delim cs []) in
    let more = tokens_from delim cs (word ++ (c ∷ [])) in if c == delim then here else more

-- The results of `strtok(s, delim)` and of `strtok(NULL, delim)` until it returns NULL, for a
-- `delim` of one byte: the maximal runs of other bytes, in order.
unfoldable pub tokens : ℕ → Bytes → List Bytes
unfolding tokens_from
tokens delim s = tokens_from delim s []

-- A word has a byte, and none of its bytes is the delimiter.
abbrev pub IsWord : ℕ → Bytes → Type 0
IsWord delim w = (is_empty w ≡ false) × All (λ c. (c == delim) ≡ false) w

end_word-IsWord :
    (delim : ℕ) (word : Bytes) (rest : List Bytes)
    → All (λ c. (c == delim) ≡ false) word
    → All (IsWord delim) rest
    → All (IsWord delim) (end_word word rest)
end_word-IsWord delim [] rest h k = k
end_word-IsWord delim (c ∷ cs) rest h k = ((refl, h), k)

All-snoc {ℓ κ} :
    {A : Type ℓ} (P : A → Type κ) (xs : List A) (x : A) → All P xs → P x → All P (xs ++ (x ∷ []))
All-snoc P [] x h p = (p, tt)
All-snoc P (y ∷ ys) x h p = (h.0, All-snoc P ys x h.1 p)

tokens_from-IsWord :
    (delim : ℕ) (s word : Bytes)
    → All (λ c. (c == delim) ≡ false) word
    → All (IsWord delim) (tokens_from delim s word)
unfolding tokens_from
tokens_from-IsWord delim [] word h = end_word-IsWord delim word [] h tt
tokens_from-IsWord delim (c ∷ cs) word h = elim (Bool-cases (c == delim)) [
  | inl e ↦ rw e (end_word-IsWord delim word _ h (tokens_from-IsWord delim cs [] tt))
  | inr e ↦ rw e (tokens_from-IsWord delim cs (word ++ (c ∷ [])) (All-snoc _ word c h e))
]

-- Every word that `strtok` finds is one.
pub tokens-IsWord : (delim : ℕ) (s : Bytes) → All (IsWord delim) (tokens delim s)
unfolding tokens
tokens-IsWord delim s = tokens_from-IsWord delim s [] tt

-- Words behind a delimiter each.
abbrev pub delimited : ℕ → List Bytes → Bytes
delimited delim [] = []
delimited delim (w ∷ ws) = delim ∷ (w ++ delimited delim ws)

tokens_from-append :
    (delim : ℕ) (w s before : Bytes)
    → All (λ c. (c == delim) ≡ false) w
    → tokens_from delim (w ++ s) before ≡ tokens_from delim s (before ++ w)
unfolding tokens_from
tokens_from-append delim [] s before h = ap (tokens_from delim s) (sym (append-nil before))
tokens_from-append delim (c ∷ cs) s before h = rw h.0 (
    tokens_from-append delim cs s (before ++ (c ∷ [])) h.1
    ∙ ap (tokens_from delim s) (append_assoc before (c ∷ []) cs))

tokens_from-delimited :
    (delim : ℕ) (ws : List Bytes) (before : Bytes)
    → All (IsWord delim) ws
    → tokens_from delim (delimited delim ws) before ≡ end_word before ws
unfolding tokens_from
tokens_from-delimited delim [] before h = refl
tokens_from-delimited delim ([] ∷ ws) before h = absurd cc
tokens_from-delimited delim ((c ∷ cs) ∷ ws) before h =
    let word : tokens_from delim ((c ∷ cs) ++ delimited delim ws) [] ≡ (c ∷ cs) ∷ ws =
      tokens_from-append delim (c ∷ cs) (delimited delim ws) [] h.0.1
      ∙ tokens_from-delimited delim ws (c ∷ cs) h.1 in
    rw (==_self delim) (ap (end_word before) word)

-- `strtok` gives back the words that stand behind a delimiter each.
pub tokens-delimited :
    (delim : ℕ) (ws : List Bytes) → All (IsWord delim) ws → tokens delim (delimited delim ws) ≡ ws
unfolding tokens tokens_from
tokens-delimited delim ws h = tokens_from-delimited delim ws [] h

-- The first word of a text that starts with one.
pub tokens-first :
    (delim : ℕ) (w s : Bytes)
    → IsWord delim w
    → tokens delim (w ++ (delim ∷ s)) ≡ w ∷ tokens delim s
unfolding tokens tokens_from
tokens-first delim [] s h = absurd cc
tokens-first delim (c ∷ cs) s h =
    tokens_from-append delim (c ∷ cs) (delim ∷ s) [] h.1 ∙ rw (==_self delim) refl
