-- ===== src/Forensic/Files.antt =====
-- What the file analyser makes of one file: `getAllHashModes` and `analyze_file` of
-- Project1/forensic.c, and `executeSystemCommand` of forensic_aux.c.
pub mod Overflow
use feup_sope.Base.{
  ℕ, zero, suc, ◌+◌, ◌-◌, ◌≤◌, Bool, true, false, Option, none, some, List, [], ◌∷◌, ◌++◌, length,
  ltb, leb, ◌==◌, if◌then◌else◌,
}
use feup_sope.Base.Result.{Result, ok, stop, Stop, out_of_bounds, null_pointer, exit_failure}
use feup_sope.Base.Text.{Bytes, codes}
use feup_sope.Base.Stdio.{fgets, c_string}
use feup_sope.Base.Format.{print_dec}
use feup_sope.Forensic.{
  HashMode, Options, Tm, convert_timespec_to_string, system_command, strip_hash_code_from_result,
  strchr,
}

infixl 5 ◌>>=◌
abbrev pub ◌>>=◌ : {A B : Type 0} → Result A → (A → Result B) → Result B
ok a >>= f = f a
stop e >>= f = stop e

-- What the analyser is given: what a command prints, `none` where popen fails, and what an array
-- holds that is not initialized.
pub record Shell : Type 0 where
  pub popen : Bytes → Option Bytes
  pub uninitialized : Bytes

-- A text in an array of `size` bytes.
abbrev pub fit : ℕ → Bytes → Result Bytes
fit size s = if ltb (length s) size then ok s else stop out_of_bounds

abbrev maxline : ℕ
maxline = 512

-- `fgets(result, MAXLINE, fpout)`, for an array of `size` bytes that holds `old`.
abbrev pub first_line : ℕ → Bytes → Bytes → Result Bytes
first_line size old [] = ok old
first_line size old (c ∷ cs) =
    fit size (fgets (maxline - 1) (c ∷ cs)).0 >>= λ line. ok (c_string line)

abbrev pub piped : ℕ → Bytes → Option Bytes → Result Bytes
piped size old none = stop exit_failure
piped size old (some printed) = first_line size old printed

abbrev pub run_command : Shell → ℕ → Bytes → Option Bytes → Result Bytes
run_command shell size old none = stop out_of_bounds
run_command shell size old (some cmd) = piped size old (shell.popen cmd)

-- The array `result`, of `size` bytes, after the call.
unfoldable pub execute_system_command : Shell → ℕ → Bytes → Bytes → Bytes → Result Bytes
unfolding fgets
execute_system_command shell size command arguments old =
    run_command shell size old (system_command command arguments)

-- Where `stripHashCodeFromResult` goes wrong: past the end of the line, which it searches for a
-- newline behind an equals sign, or with the NULL of strtok.
abbrev bad_line : Option Bytes → Stop
bad_line none = null_pointer
bad_line (some from_equals) = out_of_bounds

abbrev stripped_hash : Bytes → Option Bytes → Result Bytes
stripped_hash line none = stop (bad_line (strchr b'=' line))
stripped_hash line (some striped) = ok striped

-- A string after `strtok(s, " ")`: blanks, and the first word.
unfoldable pub first_blank_cut : Bytes → Bytes
first_blank_cut [] = []
first_blank_cut (c ∷ cs) = let rest = c ∷ first_blank_cut cs in if c == b' ' then [] else rest

unfoldable pub cut_behind_word : Bytes → Bytes
unfolding first_blank_cut
cut_behind_word [] = []
cut_behind_word (c ∷ cs) =
    let blank = c ∷ cut_behind_word cs in
    let word = c ∷ first_blank_cut cs in if c == b' ' then blank else word

-- What `stripHashCodeFromResult` leaves in its argument.
unfoldable pub stripped_argument : Bytes → Bytes
unfolding cut_behind_word
stripped_argument s = elim (strchr b'=' s) [ some from_equals ↦ s | none ↦ cut_behind_word s ]

abbrev pub choose : Bool → Bytes → Bytes → Bytes
choose true mac other = mac
choose false mac other = other

-- `strcat(result, text)`, for the 1024 bytes of `out_message`.
abbrev pub out_message_size : ℕ
out_message_size = 1024

abbrev pub strcat : Bytes → Bytes → Result Bytes
strcat result text = fit out_message_size (result ++ text)

-- The array that a hash command prints to has 64 bytes.
abbrev pub hash_size : ℕ
hash_size = 64

-- A hash that is asked for, behind a comma. `keep` says which of the two texts goes to the result: the
-- stripped hash, or, for SHA256, what is left of the line.
abbrev pub hash_text : (Bytes → Bytes → Bytes) → Bytes → Result Bytes
hash_text keep line = do
  striped ← stripped_hash line (strip_hash_code_from_result line)
  ok (keep striped (stripped_argument line))

unfoldable pub add_hash :
    Shell → (Bytes → Bytes → Bytes) → Bool → Bytes → Bytes → Bytes → Result Bytes
unfolding execute_system_command stripped_argument
add_hash shell keep false command file_char result = ok result
add_hash shell keep true command file_char result = do
  line ← execute_system_command shell hash_size command file_char shell.uninitialized
  text ← hash_text keep line
  comma ← strcat result (codes ",")
  strcat comma text

abbrev pub add_md5 : Shell → Options → Bytes → Bytes → Result Bytes
add_md5 shell o =
    add_hash shell (λ striped line. striped) o.hashmode.md5
      (choose o.mac_mode (codes "md5 ") (codes "md5sum "))

abbrev pub add_sha1 : Shell → Options → Bytes → Bytes → Result Bytes
add_sha1 shell o =
    add_hash shell (λ striped line. striped) o.hashmode.sha1
      (choose o.mac_mode (codes "shasum -a 1 ") (codes "sha1sum "))

abbrev pub add_sha256 : Shell → Options → Bytes → Bytes → Result Bytes
add_sha256 shell o =
    add_hash shell (λ striped line. line) o.hashmode.sha256
      (choose o.mac_mode (codes "shasum -a 256 ") (codes "sha256sum "))

unfoldable pub get_all_hash_modes : Shell → Options → Bytes → Bytes → Result Bytes
unfolding add_hash
get_all_hash_modes shell options file_char result = do
  with_md5 ← add_md5 shell options file_char result
  with_sha1 ← add_sha1 shell options file_char with_md5
  add_sha256 shell options file_char with_sha1

-- `st_mode`'s bits for the owner, `st_size`, and the times as localtime_r gives them.
pub record Stat : Type 0 where
  pub owner_reads : Bool
  pub owner_writes : Bool
  pub owner_executes : Bool
  pub size : ℕ
  pub mtime : Tm
  pub ctime : Tm

-- The token that `strtok` finds, without the delimiters in front, and what follows its delimiter.
unfoldable pub until_delim : ℕ → Bytes → Bytes × Bytes
until_delim delim [] = ([], [])
until_delim delim (c ∷ cs) =
    let more : Bytes × Bytes = (c ∷ (until_delim delim cs).0, (until_delim delim cs).1) in
    if c == delim then ([], cs) else more

unfoldable pub strtok : ℕ → Bytes → Option (Bytes × Bytes)
unfolding until_delim
strtok delim [] = none
strtok delim (c ∷ cs) =
    let rest = strtok delim cs in if c == delim then rest else some (until_delim delim (c ∷ cs))

abbrev or_null_token : Option (Bytes × Bytes) → Result (Bytes × Bytes)
or_null_token none = stop null_pointer
or_null_token (some p) = ok p

-- `++file_type`
abbrev pub next_char : Bytes → Bytes
next_char [] = []
next_char (c ∷ cs) = cs

-- The delimiter of the type: "," if the line has one.
abbrev pub type_delim : Option Bytes → ℕ
type_delim none = 10
type_delim (some from_comma) = b','

-- `file_name` and `file_type` of the line that "file" prints.
unfoldable pub name_and_type : Bytes → Result (Bytes × Bytes)
unfolding strtok
name_and_type file_result = do
  name ← or_null_token (strtok b':' file_result)
  type ← or_null_token (strtok (type_delim (strchr b',' file_result)) name.1)
  ok (name.0, next_char type.0)

abbrev letter_if : Bool → Bytes → Bytes
letter_if true s = s
letter_if false s = []

unfoldable pub file_perm : Stat → Bytes
file_perm st =
    letter_if st.owner_reads (codes "r")
    ++ letter_if st.owner_writes (codes "w")
    ++ letter_if st.owner_executes (codes "x")

-- `sprintf(out_message, "%s,%s,%ld,%s,%s,%s", …)`
unfoldable pub out_text : Bytes → Bytes → Stat → Bytes → Bytes → Bytes
unfolding file_perm
out_text name type st acc_time mod_time =
    name
    ++ codes ","
    ++ type
    ++ codes ","
    ++ print_dec st.size
    ++ codes ","
    ++ file_perm st
    ++ codes ","
    ++ acc_time
    ++ codes ","
    ++ mod_time

-- The line of `analyze_file`. The array for the output of "file" has 260 bytes, those for the times 19.
unfoldable pub file_line : Shell → Options → Bytes → Stat → Result Bytes
unfolding execute_system_command name_and_type out_text get_all_hash_modes
file_line shell options filepath st = do
  file_result ← execute_system_command shell 260 (codes "file ") filepath []
  p ← name_and_type file_result
  mod_time ← fit 19 (convert_timespec_to_string st.mtime)
  acc_time ← fit 19 (convert_timespec_to_string st.ctime)
  out_message ← fit out_message_size (out_text p.0 p.1 st acc_time mod_time)
  hashed ← get_all_hash_modes shell options filepath out_message
  strcat hashed (10 ∷ [])
