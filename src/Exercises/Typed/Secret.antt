-- ===== src/Exercises/Typed/Secret.antt =====
-- What Exercises/prob02/p1.c makes of a password.
use feup_sope.Base.{
  ℕ, zero, suc, ◌≡◌, ◌≢◌, refl, ap, ◌∙◌, arith, some, List, [], ◌∷◌, ◌++◌, take, All,
}
use feup_sope.Base.Text.{Bytes, codes}
use feup_sope.Base.Stdio.{c_string}
use feup_sope.Exercises.Typed.{Key, key, wrote, raw, old, read_pass, read_password, stars, shown}

abbrev pub keys_of : Bytes → List Key
keys_of [] = []
keys_of (c ∷ cs) = key c ∷ keys_of cs

-- Bytes of a password: no newline and no 0.
abbrev pub IsSecret : Bytes → Type 0
IsSecret s = All (λ c. (c ≢ 10) × (c ≢ 0)) s

-- What is left behind `room` keys, or behind the newline.
abbrev pub left_behind : ℕ → Bytes → List Key → List Key
left_behind zero typed later = keys_of typed ++ key 10 ∷ later
left_behind (suc room) [] later = later
left_behind (suc room) (c ∷ typed) later = left_behind room typed later

read_pass-typed :
    (room ch : ℕ) (typed : Bytes) (later : List Key)
    → IsSecret typed
    → read_pass room ch (keys_of typed ++ key 10 ∷ later)
      ≡ some (record { pass = take room typed; left = left_behind room typed later })
unfolding read_pass
read_pass-typed zero ch typed later h = refl
read_pass-typed (suc room) ch [] later h = refl
read_pass-typed (suc room) ch (c ∷ typed) later h =
    rw (read_pass-typed room c typed later h.1) (ground (arith, h.0))

c_string-pass :
    (room : ℕ) (typed : Bytes)
    → IsSecret typed
    → c_string (take room typed ++ 0 ∷ []) ≡ take room typed
unfolding c_string
c_string-pass zero typed h = refl
c_string-pass (suc room) [] h = refl
c_string-pass (suc room) (c ∷ typed) h = rw (c_string-pass room typed h.1) (ground (arith, h.0))

-- For any bytes other than 0 and a newline, typed with a newline behind them, p1.c shows a star for each
-- of the first 20, puts the terminal back as it was, and prints these 20, or as many as there are; it
-- leaves in the input what is typed from the 21st byte on, with its newline, or what is behind the
-- newline if there are less than 20.
pub read_password-typed :
    (ch : ℕ) (typed : Bytes) (later : List Key)
    → IsSecret typed
    → read_password ch (keys_of typed ++ key 10 ∷ later)
      ≡ some (
        wrote (codes "\nPassword? ")
            ∷ raw
            ∷ (stars (take 20 typed)
                ++ (old
                    ∷ wrote (codes "\n\nPassword: ")
                    ∷ wrote (take 20 typed)
                    ∷ wrote (10 ∷ [])
                    ∷ [])),
        left_behind 20 typed later,
      )
unfolding read_password
read_password-typed ch typed later h =
    ap shown (read_pass-typed 20 ch typed later h) ∙ rw (c_string-pass 20 typed h) refl
