-- ===== src/Forensic.antt =====
-- The file analyser's helpers, Project1/forensic_aux.c and forensic_aux.h.
pub mod Hashes
pub mod Files
pub mod Walk
pub mod Signals
mod Tests
use feup_sope.Base.{
  ℕ, suc, ◌+◌, Bool, true, false, ◌||◌, ◌==◌, Option, none, some, List, [], ◌∷◌, ◌++◌, length, ltb,
  if◌then◌else◌,
}
use feup_sope.Base.Text.{Bytes, codes, strcmp_eq, tokens}
use feup_sope.Base.Format.{print_dec}

-- The bits MD5, SHA1 and SHA256 of `hashmode`.
pub record HashMode : Type 0 where
  pub md5 : Bool
  pub sha1 : Bool
  pub sha256 : Bool

-- The fields of `Options` that the command sets, and the files that `remove` is called for.
pub record Options : Type 0 where
  pub hashmode : HashMode
  pub o_command : Option Bytes
  pub r_command : Bool
  pub v_command : Bool
  pub mac_mode : Bool
  pub removed : List Bytes

-- `*hash_option` as a truth value
abbrev pub any_mode : HashMode → Bool
any_mode m = m.md5 || (m.sha1 || m.sha256)

-- `checkHashMode`: the new option; what it returns is `any_mode` of that.
unfoldable pub check_hash_mode : Bytes → HashMode → HashMode
check_hash_mode hash_mode m = record {
  md5 = m.md5 || strcmp_eq hash_mode (codes "md5");
  sha1 = m.sha1 || strcmp_eq hash_mode (codes "sha1");
  sha256 = m.sha256 || strcmp_eq hash_mode (codes "sha256");
}

-- The loop over the words behind "-h"; `none` is `exit(1)`.
unfoldable pub read_modes : List Bytes → HashMode → Option HashMode
unfolding check_hash_mode
read_modes [] m = some m
read_modes (w ∷ ws) m =
    let rest = read_modes ws (check_hash_mode w m) in
    if any_mode (check_hash_mode w m) then rest else none

abbrev with_modes : Options → Option HashMode → Option Options
with_modes o none = none
with_modes o (some m) = some (record o { hashmode = m })

-- An argument that takes none behind it: "-r", "-v", or one that is passed over.
abbrev flag : Bytes → Options → Options
flag a o =
    if strcmp_eq a (codes "-r")
    then record o { r_command = true }
    else if strcmp_eq a (codes "-v")
    then record o { v_command = true }
    else o

-- "-h" and "-o" want two arguments behind them.
abbrev takes_one : Bytes → Bool
takes_one a = strcmp_eq a (codes "-h") || strcmp_eq a (codes "-o")

-- "-h" and "-o" with the argument behind them.
unfoldable pub option : Bytes → Bytes → Options → Option Options
unfolding read_modes
option a b o =
    if strcmp_eq a (codes "-h")
    then with_modes o (read_modes (tokens b',' b) o.hashmode)
    else some (record o { o_command = some b; removed = b ∷ o.removed })

-- The loop of `parse_arguments`, from one argument on; `none` is `exit(1)`.
unfoldable pub parse_from : List Bytes → Options → Option Options
unfolding option
parse_from [] o = some o
parse_from (a ∷ []) o =
    if takes_one a
    then none
    else if strcmp_eq a (codes "-mac")
    then some (record o { mac_mode = true })
    else some (flag a o)
parse_from (a ∷ b ∷ []) o =
    let rest = parse_from (b ∷ []) (flag a o) in
    if takes_one a || strcmp_eq a (codes "-mac") then none else rest
parse_from (a ∷ b ∷ c ∷ args) o =
    let rest = parse_from (b ∷ c ∷ args) (flag a o) in
    if takes_one a
    then elim (option a b o) [ none ↦ none | some o' ↦ parse_from (c ∷ args) o' ]
    else if strcmp_eq a (codes "-mac")
    then none
    else rest

-- `argv[1]` and what follows it
unfoldable pub parse_arguments : List Bytes → Options → Option Options
unfolding parse_from
parse_arguments [] o = none
parse_arguments (a ∷ args) o = parse_from (a ∷ args) o

-- `strchr(s, c)`
unfoldable pub strchr : ℕ → Bytes → Option Bytes
strchr c [] = none
strchr c (x ∷ xs) = let rest = strchr c xs in if x == c then some (x ∷ xs) else rest

-- The text before the first newline; `none` for a loop that runs past the end of the string.
unfoldable pub until_newline : Bytes → Option Bytes
until_newline [] = none
until_newline (c ∷ cs) =
    if c == 10 then some [] else elim (until_newline cs) [ none ↦ none | some s ↦ some (c ∷ s) ]

-- `pointerPosition + 2`, in the string or past its end.
abbrev past_equals : Bytes → Option Bytes
past_equals (c ∷ d ∷ cs) = until_newline cs
past_equals _ = none

abbrev first_token : List Bytes → Option Bytes
first_token [] = none
first_token (w ∷ ws) = some w

-- `stripHashCodeFromResult`; `none` for an access past the end of a string, or a NULL pointer.
unfoldable pub strip_hash_code_from_result : Bytes → Option Bytes
unfolding strchr until_newline
strip_hash_code_from_result s = elim (strchr b'=' s) [
  | some from_equals ↦ past_equals from_equals
  | none ↦ first_token (tokens b' ' s)
]

-- The command line of `executeSystemCommand`, in its buffer of 260 bytes; `none` for a longer one.
unfoldable pub system_command : Bytes → Bytes → Option Bytes
system_command command arguments =
    let cmd = command ++ (codes " \"" ++ (arguments ++ codes "\"")) in
    if ltb (length cmd) 260 then some cmd else none

-- The fields of `struct tm` that are printed.
pub record Tm : Type 0 where
  pub year : ℕ
  pub mon : ℕ
  pub mday : ℕ
  pub hour : ℕ
  pub min : ℕ
  pub sec : ℕ

-- `convert_timespec_to_string`, behind `localtime_r`
unfoldable pub convert_timespec_to_string : Tm → Bytes
convert_timespec_to_string t =
    print_dec (1900 + t.year)
    ++ (b'-'
        ∷ (print_dec t.mon
            ++ (b'-'
                ∷ (print_dec t.mday
                    ++ (b'T'
                        ∷ (print_dec t.hour
                            ++ (b':' ∷ (print_dec t.min ++ (b':' ∷ print_dec t.sec)))))))))
