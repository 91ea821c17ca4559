-- ===== src/Exercises/Fifo/Arrival.antt =====
-- What the reader of the FIFO of Exercises/prob05 makes of what its writers write.
use feup_sope.Base.{
  flatten, ℕ, zero, suc, ◌<◌, ◌^◌, ◌≡◌, ◌≢◌, refl, ap, ◌∙◌, arith, Bool, true, false, List, [], ◌∷◌,
  ◌++◌, length, length-append, ltb, ◌==◌, Bool-cases, inl, inr, if◌then◌else◌, All,
}
use mathlib.Core.List.{append_assoc}
use feup_sope.Base.Merges.{Merge, All-Merge}
use feup_sope.Base.Result.{Result, ok}
use feup_sope.Base.Text.{Bytes, codes}
use feup_sope.Base.Word.{ℤ, pos, negsuc}
use feup_sope.Base.Format.{print_dec}
use feup_sope.Base.Format.Decimal.{IsDigit, print_dec-IsDigit, length-print_dec}
use feup_sope.Base.Stdio.{c_string}
use feup_sope.Exercises.Fifo.{
  opened, readline, read_lines, fifo_reader, print_first, hello, write_messages, fifo_writer,
  OpenMode,
}

abbrev pub strings : List Bytes → List Bytes
strings [] = []
strings (w ∷ ws) = c_string w ∷ strings ws

-- A line with its terminator, which fits `str`.
abbrev IsShort : Bytes → Type 0
IsShort m = All (λ c. c ≢ 0) m × (length m < 100)

readline-line :
    (room : ℕ) (m cs : Bytes)
    → All (λ c. c ≢ 0) m
    → length m < room
    → readline room (m ++ 0 ∷ cs) ≡ ok (record { more = true; stored = m ++ 0 ∷ []; rest = cs })
unfolding readline
readline-line zero m cs h lt = absurd (omega (arith, lt))
readline-line (suc room) [] cs h lt = refl
readline-line (suc room) (c ∷ m) cs h lt =
    rw (readline-line room m cs h.1 (omega (arith, lt))) (ground (arith, h.0))

c_string-line : (m : Bytes) → All (λ c. c ≢ 0) m → c_string (m ++ 0 ∷ []) ≡ m
unfolding c_string
c_string-line [] h = refl
c_string-line (c ∷ m) h = rw (c_string-line m h.1) (ground (arith, h.0))

-- A write is a line with its terminator.
abbrev IsLine : Bytes → Type 0
IsLine w = (m : Bytes) × (w ≡ m ++ 0 ∷ []) × IsShort m

read_lines-line :
    (fuel : ℕ) (m s : Bytes)
    → IsShort m
    → read_lines (suc fuel) ((m ++ 0 ∷ []) ++ s) ≡ print_first m (read_lines fuel s)
unfolding read_lines
read_lines-line fuel m s (clean, short) =
    rw (append_assoc m (0 ∷ []) s, readline-line 100 m s clean short, c_string-line m clean) refl

read_lines-flatten :
    (fuel : ℕ) (ws : List Bytes)
    → All IsLine ws
    → length (flatten ws) < fuel
    → read_lines fuel (flatten ws) ≡ ok (flatten (strings ws))
unfolding read_lines
read_lines-flatten zero ws h lt = absurd (omega (arith, lt))
read_lines-flatten (suc fuel) [] h lt = refl
read_lines-flatten (suc fuel) (w ∷ ws) ((m, e, short), h) lt =
    let fewer : length (flatten ws) < fuel =
      omega (arith, lt, ap length e, length-append w (flatten ws), length-append m (0 ∷ [])) in
    let rest : read_lines fuel (flatten ws) ≡ ok (flatten (strings ws)) =
      read_lines-flatten fuel ws h fewer in
    rw (e, read_lines-line fuel m (flatten ws) short, rest, c_string-line m (short.0)) refl

pub fifo_reader-flatten :
    (ws : List Bytes) → All IsLine ws → fifo_reader (flatten ws) ≡ ok (flatten (strings ws))
unfolding fifo_reader
fifo_reader-flatten ws h = read_lines-flatten (suc (length (flatten ws))) ws h (omega arith)

-- The text of a message.
abbrev IsClean : Bytes → Type 0
IsClean s = All (λ c. c ≢ 0) s

IsClean-append : (xs ys : Bytes) → IsClean xs → IsClean ys → IsClean (xs ++ ys)
IsClean-append [] ys h k = k
IsClean-append (x ∷ xs) ys h k = (h.0, IsClean-append xs ys h.1 k)

abbrev no_zero : Bytes → Bool
no_zero [] = true
no_zero (c ∷ s) = let rest = no_zero s in if c == 0 then false else rest

IsClean-of : (s : Bytes) → no_zero s ≡ true → IsClean s
IsClean-of [] h = tt
IsClean-of (c ∷ s) h = elim (Bool-cases (c == 0)) [
  | inl e ↦ absurd (ground arith)
  | inr e ↦ ((λ q. ground arith), IsClean-of s (ground arith))
]

digits-IsClean : (s : Bytes) → All IsDigit s → IsClean s
digits-IsClean [] h = tt
digits-IsClean (c ∷ s) h = ((λ e. omega (arith, e, h.0.0)), digits-IsClean s h.1)

IsClean-print_dec : (n : ℕ) → IsClean (print_dec n)
IsClean-print_dec n = digits-IsClean (print_dec n) (print_dec-IsDigit n)

hello-IsShort : (i pid : ℕ) → i < 10 → pid < 2 ^ 31 → IsShort (hello i pid)
hello-IsShort i pid small word =
    let first : Bytes = codes "Hello no. " in
    let second : Bytes = codes " from process " in
    let a : Bytes = first ++ print_dec i in
    let b : Bytes = a ++ second in
    let c : Bytes = b ++ print_dec pid in
    (
      IsClean-append c (10 ∷ [])
          (IsClean-append b (print_dec pid)
            (IsClean-append a second
              (IsClean-append first (print_dec i) (IsClean-of first refl) (IsClean-print_dec i))
              (IsClean-of second refl))
            (IsClean-print_dec pid))
          (IsClean-of (10 ∷ []) refl),
      omega (
        arith,
        length-append c (10 ∷ []),
        length-append b (print_dec pid),
        length-append a second,
        length-append first (print_dec i),
        length-print_dec i 0 (omega (arith, small)),
        length-print_dec pid 9 (omega (arith, word)),
      ),
    )

-- What the calls of `write` of a writer come to.
abbrev pub message : ℕ → ℕ → Bytes
message i pid = hello i pid ++ 0 ∷ []

message-IsLine : (i pid : ℕ) → i < 10 → pid < 2 ^ 31 → IsLine (message i pid)
message-IsLine i pid small word = (hello i pid, refl, hello-IsShort i pid small word)

abbrev pub messages : ℕ → List Bytes
messages pid = message 1 pid ∷ message 2 pid ∷ message 3 pid ∷ []

write_messages-messages : (pid : ℕ) → pid < 2 ^ 31 → write_messages 3 1 pid ≡ ok (messages pid)
unfolding write_messages
write_messages-messages pid word =
    let fits : (i : ℕ) → i < 10 → ltb (length (hello i pid)) 100 ≡ true =
      λ i small. let (clean, short) = hello-IsShort i pid small word in ground (arith, short) in
    rw (fits 1 (omega arith), fits 2 (omega arith), fits 3 (omega arith)) refl

-- An answer of `open` is a descriptor.
abbrev pub is_open : List ℤ → Bool
is_open [] = false
is_open (pos fd ∷ answers) = true
is_open (negsuc n ∷ answers) = is_open answers

opened_messages :
    (answers : List ℤ) (r : Result (List Bytes)) → is_open answers ≡ true → opened answers r ≡ r
opened_messages [] r h = absurd cc
opened_messages (pos fd ∷ answers) r h = refl
opened_messages (negsuc n ∷ answers) r h = opened_messages answers r h

messages-IsLine : (pid : ℕ) → pid < 2 ^ 31 → All IsLine (messages pid)
messages-IsLine pid word = (
  message-IsLine 1 pid (omega arith) word,
  (message-IsLine 2 pid (omega arith) word, (message-IsLine 3 pid (omega arith) word, tt)),
)

-- For two processes whose `open` gives a descriptor in the end, and identifiers that are ints, each
-- writer writes its three messages, with a terminator each; and in whatever order the writes of both
-- arrive, each as a whole and all before the FIFO is at its end, the reader prints the text of each,
-- in that order, and comes to its end with no write behind `str`.
pub fifo_reader-prints :
    (mode other : OpenMode) (opens opens_other : OpenMode → List ℤ) (pid pid_other : ℕ)
    (zs : List Bytes)
    → is_open (opens mode) ≡ true
    → is_open (opens_other other) ≡ true
    → pid < 2 ^ 31
    → pid_other < 2 ^ 31
    → Merge (messages pid) (messages pid_other) zs
    → (fifo_writer mode opens pid ≡ ok (messages pid))
      × (fifo_writer other opens_other pid_other ≡ ok (messages pid_other))
      × (fifo_reader (flatten zs) ≡ ok (flatten (strings zs)))
unfolding fifo_writer
fifo_reader-prints mode other opens opens_other pid pid_other zs o oo word word_other m = (
  opened_messages (opens mode) _ o ∙ write_messages-messages pid word,
  opened_messages (opens_other other) _ oo ∙ write_messages-messages pid_other word_other,
  fifo_reader-flatten zs
      (All-Merge IsLine m (messages-IsLine pid word) (messages-IsLine pid_other word_other)),
)
