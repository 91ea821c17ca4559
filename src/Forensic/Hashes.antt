-- ===== src/Forensic/Hashes.antt =====
-- The hash functions that the command names, and the hashes that the tools print.
use feup_sope.Base.{
  ℕ, ◌≡◌, refl, arith, Bool, true, false, ◌||◌, none, some, List, [], ◌∷◌, ◌++◌, ◌==◌, All,
  if◌then◌else◌,
}
use feup_sope.Base.Text.{Bytes, codes, strcmp_eq, tokens-first, IsWord}
use feup_sope.Forensic.{
  HashMode, any_mode, check_hash_mode, read_modes, strip_hash_code_from_result, strchr,
  until_newline,
}

-- Whether a word is among those given.
abbrev pub names : Bytes → List Bytes → Bool
names w [] = false
names w (x ∷ xs) = strcmp_eq x w || names w xs

-- The functions of `m` and those that the words name.
abbrev pub named : List Bytes → HashMode → HashMode
named ws m = record {
  md5 = m.md5 || names (codes "md5") ws;
  sha1 = m.sha1 || names (codes "sha1") ws;
  sha256 = m.sha256 || names (codes "sha256") ws;
}

check_hash_mode-any :
    (w : Bytes) (m : HashMode) → any_mode m ≡ true → any_mode (check_hash_mode w m) ≡ true
unfolding check_hash_mode
check_hash_mode-any w m h = ground arith

read_modes-named :
    (ws : List Bytes) (m : HashMode) → any_mode m ≡ true → read_modes ws m ≡ some (named ws m)
unfolding read_modes check_hash_mode
read_modes-named [] m h = ground arith
read_modes-named (w ∷ ws) m h =
    ground (arith, check_hash_mode-any w m h, read_modes-named ws (check_hash_mode w m))

abbrev pub no_mode : HashMode
no_mode = record { md5 = false; sha1 = false; sha256 = false }

-- A word that is one of the three names.
abbrev pub is_known : Bytes → Bool
is_known w =
    strcmp_eq w (codes "md5") || (strcmp_eq w (codes "sha1") || strcmp_eq w (codes "sha256"))

check_hash_mode-known :
    (w : Bytes) (m : HashMode) → any_mode (check_hash_mode w m) ≡ (any_mode m || is_known w)
unfolding check_hash_mode
check_hash_mode-known w m = ground arith

-- The words behind a "-h" are refused if and only if no earlier "-h" has named a hash function and the
-- first is not one of the three names, whatever follows it; else the hash functions are the earlier
-- ones and those of the three that are among the words.
pub read_modes_lem :
    (w : Bytes) (ws : List Bytes) (m : HashMode)
    → read_modes (w ∷ ws) m ≡ (if any_mode m || is_known w then some (named (w ∷ ws) m) else none)
unfolding read_modes check_hash_mode
read_modes_lem w ws m =
    ground (arith, check_hash_mode-known w m, read_modes-named ws (check_hash_mode w m))

strchr-absent : (c : ℕ) (s : Bytes) → All (λ x. (x == c) ≡ false) s → strchr c s ≡ none
unfolding strchr
strchr-absent c [] h = refl
strchr-absent c (x ∷ xs) h = ground (arith, h.0, strchr-absent c xs h.1)

strchr-first :
    (c : ℕ) (s t : Bytes) → All (λ x. (x == c) ≡ false) s → strchr c (s ++ (c ∷ t)) ≡ some (c ∷ t)
unfolding strchr
strchr-first c [] t h = ground arith
strchr-first c (x ∷ xs) t h = ground (arith, h.0, strchr-first c xs t h.1)

until_newline-append :
    (s t : Bytes) → All (λ x. (x == 10) ≡ false) s → until_newline (s ++ (10 ∷ t)) ≡ some s
unfolding until_newline
until_newline-append [] t h = refl
until_newline-append (x ∷ xs) t h = ground (arith, h.0, until_newline-append xs t h.1)

-- What md5 of macOS prints, "MD5 (file) = hash" and a newline, is stripped to the hash, if the text
-- in front has no '='.
pub strip_hash-equals :
    (front hash : Bytes)
    → All (λ x. (x == b'=') ≡ false) front
    → All (λ x. (x == 10) ≡ false) hash
    → strip_hash_code_from_result (front ++ (b'=' ∷ (b' ' ∷ (hash ++ (10 ∷ []))))) ≡ some hash
unfolding strip_hash_code_from_result
strip_hash-equals front hash hf hh = ground (
  arith,
  strchr-first b'=' front (b' ' ∷ (hash ++ (10 ∷ []))) hf,
  until_newline-append hash [] hh,
)

-- What md5sum prints, the hash and then a blank and the name, is stripped to the hash, if there is no
-- '=' in the line, the hash is not empty and it has no blank.
pub strip_hash-blank :
    (hash name : Bytes)
    → IsWord b' ' hash
    → All (λ x. (x == b'=') ≡ false) (hash ++ (b' ' ∷ name))
    → strip_hash_code_from_result (hash ++ (b' ' ∷ name)) ≡ some hash
unfolding strip_hash_code_from_result
strip_hash-blank hash name h absent =
    ground (arith, strchr-absent b'=' (hash ++ (b' ' ∷ name)) absent, tokens-first b' ' hash name h)
