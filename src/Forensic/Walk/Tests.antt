-- ===== src/Forensic/Walk/Tests.antt =====
-- A walk over a small directory, and the theorems about the analyser there.
use feup_sope.Base.{
  ◌+◌, ◌≤◌, ◌<◌, ◌≡◌, ◌≢◌, refl, arith, Bool, true, false, none, some, [], ◌∷◌, ◌++◌, inl, inr,
  replicate, ◌⊎◌, length, List,
}
use feup_sope.Base.Text.{codes}
use feup_sope.Base.Format.{print_dec}
use feup_sope.Base.Stdio.{fgets, c_string}
use feup_sope.Forensic.{system_command, Options, Tm, convert_timespec_to_string, strchr}
use feup_sope.Forensic.Files.{Shell, Stat, file_line, get_all_hash_modes}
use feup_sope.Forensic.Walk.{
  Entries, Event, Setting, regular, directory, no_entry, entry, exit, printed, analyze_path, Result,
  sent, logged, saved, removed, sigusr1, sigusr2, sigint,
}
use feup_sope.Base.Merges.{count}
use feup_sope.Forensic.Walk.Complete.{
  IsFine, Runs-exist, count_all, file_events, directory_events, files_below, directories_below,
  analyze_path_complete, Runs,
}
use feup_sope.Forensic.Signals.{
  Action, deliver_usr1, send_usr1, send_usr2, deliver_usr2, act_all, no_signals,
}
use feup_sope.Forensic.Signals.Counts.{known_files, known_directories, sends, is_usr1, is_usr2}
use feup_sope.Forensic.Signals.Walked.{walk-Counted, is_sent_usr1, is_sent_usr2}
use feup_sope.Forensic.Files.Overflow.{get_all_hash_modes-sha256}

abbrev noon : Tm
noon = record { year = 120; mon = 3; mday = 5; hour = 12; min = 0; sec = 0 }

abbrev test_stat : Stat
test_stat = record {
  owner_reads = true;
  owner_writes = true;
  owner_executes = false;
  size = 12;
  mtime = noon;
  ctime = noon;
}

-- "file" says of anything that it is text.
abbrev test_shell : Shell
test_shell = record { popen = λ cmd. some (codes "a: ASCII text" ++ 10 ∷ []); uninitialized = [] }

abbrev test_setting : Setting
test_setting = record {
  shell = test_shell;
  options = record {
    hashmode = record { md5 = false; sha1 = false; sha256 = false };
    o_command = none;
    r_command = false;
    v_command = false;
    mac_mode = false;
    removed = [];
  };
  forks = λ path. true;
}

-- Two files, one of them in a directory below, and a hidden directory.
abbrev test_entries : Entries
test_entries = entry (codes "a") (regular test_stat) (
    entry (codes ".git") (directory (entry (codes "b") (regular test_stat) no_entry))
      (entry (codes "d") (directory (entry (codes "c") (regular test_stat) no_entry)) no_entry))

test_line :
    file_line test_shell test_setting.options (codes "a") test_stat
    ≡ Result.ok (codes "a,ASCII text,12,rw,2020-3-5T12:0:0,2020-3-5T12:0:0" ++ 10 ∷ [])
unfolding file_line convert_timespec_to_string print_dec fgets c_string strchr system_command
test_line = refl

test-IsFine : IsFine test_setting test_entries (codes ".")
unfolding IsFine file_line convert_timespec_to_string print_dec fgets c_string strchr system_command
test-IsFine = (
  omega arith,
  (refl, omega arith),
  (
    omega arith,
    inl refl,
    (omega arith, inr (refl, refl, (omega arith, (refl, omega arith), tt)), tt),
  ),
)

abbrev is_print : Event → Bool
is_print (printed line) = true
is_print _ = false

test_count :
    count_all is_print (file_events test_setting) (files_below test_entries (codes ".")) ≡ 2
unfolding files_below
test_count = refl

analyze_path_complete_example :
    let process = analyze_path test_setting (directory test_entries) (codes ".") (exit 0) in
    let run = Runs-exist process in
    count is_print run.0
    ≡ count_all is_print (file_events test_setting) (files_below test_entries (codes "."))
      + count_all is_print
          (directory_events test_setting)
          (codes "." ∷ directories_below test_entries (codes "."))
analyze_path_complete_example =
    let process = analyze_path test_setting (directory test_entries) (codes ".") (exit 0) in
    analyze_path_complete test_setting test_entries (codes ".") (Runs-exist process).0 test-IsFine
      (Runs-exist process).1 is_print

abbrev sha_shell : Shell
sha_shell = record {
  popen = λ cmd. some (replicate 64 b'a' ++ codes "  a" ++ 10 ∷ []);
  uninitialized = [];
}

abbrev sha_options : Options
sha_options = record (test_setting.options) {
  hashmode = record { md5 = true; sha1 = false; sha256 = true };
}

get_all_hash_modes-sha256_example :
    get_all_hash_modes sha_shell sha_options (codes "a") (codes "a,text")
    ≢ Result.ok (codes "a,text")
unfolding fgets
get_all_hash_modes-sha256_example =
    get_all_hash_modes-sha256 sha_shell sha_options (codes "a") (codes "a,text") (codes "a,text")
      refl
      (λ cmd e. record {
        text = replicate 64 b'a' ++ codes "  a" ++ 10 ∷ [];
        printed = refl;
        long = omega arith;
      })

-- The signals of some events, sent in this order, each delivered at once.
abbrev sending : List Event → List Action
sending [] = []
sending (sent sigusr1 ∷ events) = send_usr1 ∷ deliver_usr1 ∷ sending events
sending (sent sigusr2 ∷ events) = send_usr2 ∷ deliver_usr2 ∷ sending events
sending (sent sigint ∷ events) = sending events
sending (logged act ∷ events) = sending events
sending (printed text ∷ events) = sending events
sending (saved text ∷ events) = sending events
sending (removed file ∷ events) = sending events

sends-sending :
    (events : List Event)
    → (sends is_usr2 (sending events) ≡ count is_sent_usr2 events)
      × (sends is_usr1 (sending events) ≡ count is_sent_usr1 events)
sends-sending [] = (refl, refl)
sends-sending (sent sigusr1 ∷ events) =
    (omega (arith, (sends-sending events).0), omega (arith, (sends-sending events).1))
sends-sending (sent sigusr2 ∷ events) =
    (omega (arith, (sends-sending events).0), omega (arith, (sends-sending events).1))
sends-sending (sent sigint ∷ events) =
    (omega (arith, (sends-sending events).0), omega (arith, (sends-sending events).1))
sends-sending (logged act ∷ events) =
    (omega (arith, (sends-sending events).0), omega (arith, (sends-sending events).1))
sends-sending (printed text ∷ events) =
    (omega (arith, (sends-sending events).0), omega (arith, (sends-sending events).1))
sends-sending (saved text ∷ events) =
    (omega (arith, (sends-sending events).0), omega (arith, (sends-sending events).1))
sends-sending (removed file ∷ events) =
    (omega (arith, (sends-sending events).0), omega (arith, (sends-sending events).1))

abbrev saving_setting : Setting
saving_setting = record test_setting {
  options = record (test_setting.options) { o_command = some (codes "out") };
}

saving-IsFine : IsFine saving_setting test_entries (codes ".")
unfolding IsFine file_line convert_timespec_to_string print_dec fgets c_string strchr system_command
saving-IsFine = (
  omega arith,
  (refl, omega arith),
  (
    omega arith,
    inl refl,
    (omega arith, inr (refl, refl, (omega arith, (refl, omega arith), tt)), tt),
  ),
)

-- A run of the walk, and its signals.
abbrev saving_run :
    (events : List Event) × Runs
      (analyze_path saving_setting (directory test_entries) (codes ".") (exit 0))
      events
saving_run = Runs-exist (analyze_path saving_setting (directory test_entries) (codes ".") (exit 0))

walk-Counted_example :
    let m = act_all saving_setting.options (sending saving_run.0) no_signals in
    let files = length (files_below test_entries (codes ".")) in
    (m.counters.n_files ≤ files)
    × (m.counters.n_directory ≤ 1 + length (directories_below test_entries (codes ".")))
    × ((files ≡ 0) ⊎ (0 < known_files m))
    × (0 < known_directories m)
walk-Counted_example =
    walk-Counted saving_setting test_entries (codes ".") (codes "out") saving_run.0
      (sending saving_run.0) saving-IsFine saving_run.1 refl (sends-sending saving_run.0).0
      (sends-sending saving_run.0).1
