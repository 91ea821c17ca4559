-- ===== src/Forensic/Walk.antt =====
-- The walk of the file analyser over a directory, `analyze_path` and `main` of Project1/forensic.c.
pub mod Complete
mod Tests
use feup_sope.Base.{
  ℕ, ◌+◌, ◌≤◌, Bool, true, false, Option, none, some, List, [], ◌∷◌, ◌++◌, length, ltb, ◌==◌,
  if◌then◌else◌,
}
use feup_sope.Base.Result.{
  Result, ok, stop, Stop, out_of_bounds, null_pointer, exit_failure, blocked,
}
use feup_sope.Base.Text.{Bytes, codes}
use feup_sope.Forensic.{HashMode, Options, parse_arguments}
use feup_sope.Forensic.Files.{Shell, Stat, file_line}

-- A path as stat sees it; a link that is followed is what it leads to.
mutual
  pub data Node : Type 0 where
    missing : Node  -- stat fails
    regular : Stat → Node
    directory : Entries → Node
    closed : Node  -- a directory that opendir fails for
    special : Stat → Node

  -- What readdir gives, in order.
  pub data Entries : Type 0 where
    no_entry : Entries
    entry : Bytes → Node → Entries → Entries

pub data Signal : Type 0 where
  sigusr1 sigusr2 sigint : Signal

-- What a process does that others see: it sends a signal to the first process, calls `log_command`,
-- prints a text or appends it to a file, or removes a file.
pub data Event : Type 0 where
  sent : Signal → Event
  logged : Bytes → Event
  printed : Bytes → Event
  saved : Bytes → Event
  removed : Bytes → Event

-- A process from some point on. `fork c p` goes on as `p`, beside a child that goes on as `c`.
pub data Process : Type 0 where
  exit : ℕ → Process
  crash : Stop → Process
  emit : Event → Process → Process
  fork : Process → Process → Process

-- What the walk is given: the shell, the command's options, and for which paths fork succeeds.
pub record Setting : Type 0 where
  pub shell : Shell
  pub options : Options
  pub forks : Bytes → Bool

abbrev emit_if : Bool → Event → Process → Process
emit_if true e p = emit e p
emit_if false e p = p

abbrev pub is_some {ℓ} : {A : Type ℓ} → Option A → Bool
is_some none = false
is_some (some a) = true

-- `exit(1)`, or an end that the code does not foresee
abbrev pub stopped : Stop → Process
stopped exit_failure = exit 1
stopped e = crash e

abbrev text_or : Option Bytes → Bytes
text_or none = []
text_or (some s) = s

-- The text goes to the terminal or to the file of "-o".
abbrev pub output : Option Bytes → Bytes → Event
output none text = printed text
output (some out_file) text = saved text

abbrev finish_file : Setting → Process → Result Bytes → Process
finish_file w next (stop e) = stopped e
finish_file w next (ok line) = emit (output w.options.o_command line) next

-- `log_msg` has 255 bytes.
abbrev log_if : Bool → Bytes → Process → Process
log_if false msg next = next
log_if true msg next = if ltb (length msg) 255 then emit (logged msg) next else crash out_of_bounds

-- `analyze_file`, and then `next`.
unfoldable pub analyze_file : Setting → Bytes → Stat → Process → Process
analyze_file w filepath st next = emit_if (is_some w.options.o_command) (sent sigusr2) (
    log_if w.options.v_command (codes "ANALYZED " ++ filepath)
      (finish_file w next (file_line w.shell w.options filepath st)))

-- `dir->d_name[0] == '.'`
abbrev pub is_hidden : Bytes → Bool
is_hidden [] = false
is_hidden (c ∷ cs) = c == b'.'

-- `sprintf(temp_filename, "%s/%s", …)`, an array of 257 bytes.
abbrev pub join_path : Bytes → Bytes → Bytes
join_path filepath name = filepath ++ b'/' ∷ name

abbrev pub fits_path : Bytes → Bool
fits_path p = ltb (length p) 257

-- A subdirectory: a child walks it and the loop goes on, or, where fork fails, the process walks it
-- itself and exits.
abbrev walk_child : Bool → Process → Process → Process
walk_child true child next = fork child next
walk_child false child next = child

-- The body of the loop over `readdir`: `child` is what a process for the entry does, and `rest` is
-- the loop from the next entry on.
abbrev pub read_entry : Setting → Node → Bytes → Bytes → Process → Process → Process
read_entry w missing name p child rest = exit 1
read_entry w (regular st) name p child rest = analyze_file w p st rest
read_entry w (special st) name p child rest = rest
read_entry w closed name p child rest =
    if is_hidden name then rest else walk_child (w.forks p) child rest
read_entry w (directory es) name p child rest =
    if is_hidden name then rest else walk_child (w.forks p) child rest

unfoldable mutual
  unfolding analyze_file

  -- `analyze_path`, and then `next`.
  pub analyze_path : Setting → Node → Bytes → Process → Process
  analyze_path w missing filepath next = exit 1
  analyze_path w (regular st) filepath next = analyze_file w filepath st next
  analyze_path w (special st) filepath next = analyze_file w filepath st next
  analyze_path w closed filepath next =
      emit_if (is_some w.options.o_command) (sent sigusr1) (exit 1)
  analyze_path w (directory es) filepath next =
      emit_if (is_some w.options.o_command) (sent sigusr1) (read_entries w es filepath next)

  -- The loop over `readdir`.
  pub read_entries : Setting → Entries → Bytes → Process → Process
  read_entries w no_entry filepath next = next
  read_entries w (entry name node es) filepath next =
      let p = join_path filepath name in
      let body =
        read_entry w node name p (analyze_path w node p (exit 0))
          (read_entries w es filepath next) in
      if fits_path p then body else crash out_of_bounds

-- The messages behind the wait for the children.
unfoldable pub exit_messages : Options → Bytes → Process
exit_messages o log_filepath =
    let saved_message = codes "Data saved on file " ++ text_or o.o_command ++ (10 ∷ []) in
    let log_message = codes "Execution records saved on file " ++ log_filepath ++ (10 ∷ []) in
    emit_if (is_some o.o_command) (printed saved_message)
      (emit_if o.v_command (printed log_message) (exit 0))

-- `log_msg`, with each argument and a blank behind it.
abbrev command_text : List Bytes → Bytes
command_text [] = []
command_text (a ∷ args) = a ++ b' ' ∷ command_text args

abbrev pub last_or : Bytes → List Bytes → Bytes
last_or a [] = a
last_or a (b ∷ bs) = last_or b bs

abbrev pub last_but_one_or : Bytes → Bytes → List Bytes → Bytes
last_but_one_or a b [] = a
last_but_one_or a b (c ∷ cs) = last_but_one_or b c cs

-- `argv[argc-2]` or `argv[argc-1]`; `program` is argv[0], and `a` argv[1].
abbrev pub filepath_of : Options → Bytes → Bytes → List Bytes → Bytes
filepath_of o program a args = if o.mac_mode then last_but_one_or program a args else last_or a args

abbrev start_walk : Shell → (Bytes → Bool) → (Bytes → Node) → Options → Bytes → Bytes → Process
start_walk shell forks fs o log_filepath filepath =
    analyze_path (record { shell = shell; options = o; forks = forks }) (fs filepath) filepath
      (exit_messages o log_filepath)

abbrev no_log_message : Bytes
no_log_message =
    codes "-v: Can not generate log, environment variable \"LOGFILENAME\" does not exist."
    ++ (10 ∷ [])

-- From the parsed command on. `log_file_name` is getenv("LOGFILENAME").
abbrev with_log : Bool → Option Bytes → Bytes → (Bytes → Process) → Process
with_log false log_file_name msg next = next []
with_log true none msg next = emit (printed no_log_message) (exit 1)
with_log true (some log_filepath) msg next =
    emit (removed log_filepath) (log_if true msg (next log_filepath))

abbrev remove_all : List Bytes → Process → Process
remove_all [] next = next
remove_all (f ∷ fs) next = remove_all fs (emit (removed f) next)

abbrev with_options :
    Shell
    → (Bytes → Bool)
    → (Bytes → Node)
    → Option Bytes
    → Bytes
    → Bytes
    → List Bytes
    → Option Options
    → Process
with_options shell forks fs log_file_name program a args none = exit 1
with_options shell forks fs log_file_name program a args (some o) = remove_all o.removed (
    with_log o.v_command log_file_name (codes "COMMAND " ++ command_text (program ∷ a ∷ args))
      λ log_filepath. start_walk shell forks fs o log_filepath (filepath_of o program a args))

abbrev pub initial_options : Options
initial_options = record {
  hashmode = record { md5 = false; sha1 = false; sha256 = false };
  o_command = none;
  r_command = false;
  v_command = false;
  mac_mode = false;
  removed = [];
}

-- `main`, behind the installation of the handlers. `fs` is the file system by path. A command that is
-- refused is not told which files it has removed by then.
unfoldable pub forensic_main :
    Shell → (Bytes → Bool) → (Bytes → Node) → Option Bytes → Bytes → List Bytes → Process
unfolding analyze_path exit_messages
forensic_main shell forks fs log_file_name program [] = exit 1
forensic_main shell forks fs log_file_name program (a ∷ args) =
    with_options shell forks fs log_file_name program a args
      (parse_arguments (a ∷ args) initial_options)
