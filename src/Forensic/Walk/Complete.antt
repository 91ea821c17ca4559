-- ===== src/Forensic/Walk/Complete.antt =====
-- What the processes of a walk do together, in whatever order their events come.
use feup_sope.Base.{
  ℕ, ◌+◌, ◌<◌, ◌≡◌, refl, arith, Bool, true, false, List, [], ◌∷◌, ◌++◌, length, if◌then◌else◌, ◌⊎◌,
  inl, inr,
}
use feup_sope.Base.Merges.{Merge, Merge-append, count, count-Merge}
use feup_sope.Base.Result.{Result, ok, stop, Stop}
use feup_sope.Base.Text.{Bytes, codes}
use feup_sope.Forensic.Files.{Stat, file_line}
use feup_sope.Forensic.Walk.{
  Node, missing, regular, directory, closed, special, Entries, no_entry, entry, Event, sent, logged,
  sigusr1, sigusr2, Process, exit, crash, emit, fork, Setting, analyze_path, read_entries,
  analyze_file, output, is_hidden, join_path, is_some, read_entry,
}

-- The events of a process and its children, in an order in which they can come.
pub data Runs : Process → List Event → Type 0 where
  exits : {n : ℕ} → Runs (exit n) []
  crashes : {e : Stop} → Runs (crash e) []
  emits : {e : Event} {p : Process} {es : List Event} → Runs p es → Runs (emit e p) (e ∷ es)
  forks :
      {c p : Process} {xs ys zs : List Event}
      → Runs c xs
      → Runs p ys
      → Merge xs ys zs
      → Runs (fork c p) zs

abbrev count_process : (Event → Bool) → Process → ℕ
count_process q (exit n) = 0
count_process q (crash e) = 0
count_process q (emit e p) = (if q e then 1 else 0) + count_process q p
count_process q (fork c p) = count_process q c + count_process q p

count-Runs :
    (q : Event → Bool) {p : Process} {es : List Event} → Runs p es → count q es ≡ count_process q p
count-Runs q exits = refl
count-Runs q crashes = refl
count-Runs q (emits r) = omega (arith, count-Runs q r)
count-Runs q (forks c p s) = omega (arith, count-Merge q s, count-Runs q c, count-Runs q p)

-- The files that the walk is to analyse below a directory, and the directories that it is to enter:
-- all but hidden directories and what is in them.
unfoldable mutual
  pub files_below : Entries → Bytes → List (Bytes × Stat)
  files_below no_entry path = []
  files_below (entry name node es) path =
      files_at name node (join_path path name) ++ files_below es path

  pub files_at : Bytes → Node → Bytes → List (Bytes × Stat)
  files_at name (regular st) p = (p, st) ∷ []
  files_at name (directory es) p =
      let below = files_below es p in if is_hidden name then [] else below
  files_at name missing p = []
  files_at name closed p = []
  files_at name (special st) p = []

unfoldable mutual
  pub directories_below : Entries → Bytes → List Bytes
  directories_below no_entry path = []
  directories_below (entry name node es) path =
      directories_at name node (join_path path name) ++ directories_below es path

  pub directories_at : Bytes → Node → Bytes → List Bytes
  directories_at name (directory es) p =
      let below = p ∷ directories_below es p in if is_hidden name then [] else below
  directories_at name (regular st) p = []
  directories_at name missing p = []
  directories_at name closed p = []
  directories_at name (special st) p = []

abbrev pub count_all {ℓ} : {A : Type ℓ} → (Event → Bool) → (A → List Event) → List A → ℕ
count_all q f [] = 0
count_all q f (a ∷ rest) = count q (f a) + count_all q f rest

count_all-append {ℓ} :
    {A : Type ℓ} (q : Event → Bool) (f : A → List Event) (xs ys : List A)
    → count_all q f (xs ++ ys) ≡ count_all q f xs + count_all q f ys
count_all-append q f [] ys = omega arith
count_all-append q f (x ∷ xs) ys = omega (arith, count_all-append q f xs ys)

abbrev pub line_of : Setting → Bytes × Stat → Bytes
line_of w (path, st) = elim (file_line w.shell w.options path st) [ ok line ↦ line | stop e ↦ [] ]

-- The analysis of a file succeeds, and the message for the log fits its array.
abbrev pub FileIsFine : Setting → Bytes → Stat → Type 0
FileIsFine w path st =
    (file_line w.shell w.options path st ≡ ok (line_of w (path, st)))
    × (length (codes "ANALYZED " ++ path) < 255)

-- Everything that the walk meets below a directory is as the code expects: names that fit, no dangling
-- link, and directories that open and forks that succeed, unless the directory is hidden.
unfoldable mutual
  pub IsFine : Setting → Entries → Bytes → Type 0
  IsFine w no_entry path = Unit
  IsFine w (entry name node es) path =
      (length (join_path path name) < 257)
      × NodeIsFine w name node (join_path path name)
      × IsFine w es path

  pub NodeIsFine : Setting → Bytes → Node → Bytes → Type 0
  NodeIsFine w name missing p = ⊥
  NodeIsFine w name (regular st) p = FileIsFine w p st
  NodeIsFine w name (special st) p = Unit
  NodeIsFine w name closed p = is_hidden name ≡ true
  NodeIsFine w name (directory es) p =
      (is_hidden name ≡ true) ⊎ (is_hidden name ≡ false) × (w.forks p ≡ true) × IsFine w es p

abbrev if_asked : Bool → Event → List Event
if_asked true e = e ∷ []
if_asked false e = []

-- What a file and what a directory adds.
abbrev pub file_events : Setting → Bytes × Stat → List Event
file_events w f =
    if_asked (is_some w.options.o_command) (sent sigusr2)
    ++ if_asked w.options.v_command (logged (codes "ANALYZED " ++ f.0))
    ++ output w.options.o_command (line_of w f) ∷ []

abbrev pub directory_events : Setting → Bytes → List Event
directory_events w path = if_asked (is_some w.options.o_command) (sent sigusr1)

Result-cases : {A : Type 0} (r : Result A) → ((a : A) × (r ≡ ok a)) ⊎ ((e : Stop) × (r ≡ stop e))
Result-cases (ok a) = inl (a, refl)
Result-cases (stop e) = inr (e, refl)

count_process-analyze_file :
    (q : Event → Bool) (w : Setting) (path : Bytes) (st : Stat) (next : Process)
    → FileIsFine w path st
    → count_process q (analyze_file w path st next)
      ≡ count q (file_events w (path, st)) + count_process q next
unfolding analyze_file
count_process-analyze_file q w path st next h =
    elim (Result-cases (file_line w.shell w.options path st)) [
      | inl (line, e) ↦ ground arith
      | inr (why, e) ↦ absurd cc
    ]

mutual
  unfolding analyze_path files_below directories_below IsFine

  count_process-read_entries :
      (q : Event → Bool) (w : Setting) (es : Entries) (path : Bytes) (next : Process)
      → IsFine w es path
      → count_process q (read_entries w es path next)
        ≡ count_all q (file_events w) (files_below es path)
          + count_all q (directory_events w) (directories_below es path)
          + count_process q next
  count_process-read_entries q w no_entry path next h = omega arith
  count_process-read_entries q w (entry name node es) path next h =
      let p = join_path path name in
      ground (
        arith,
        count_process-read_entry q w node name p (read_entries w es path next) h.1,
        count_process-read_entries q w es path next h.2,
        count_all-append q (file_events w) (files_at name node p) (files_below es path),
        count_all-append q (directory_events w) (directories_at name node p)
            (directories_below es path),
      )

  count_process-read_entry :
      (q : Event → Bool) (w : Setting) (node : Node) (name path : Bytes) (rest : Process)
      → NodeIsFine w name node path
      → count_process q (read_entry w node name path (analyze_path w node path (exit 0)) rest)
        ≡ count_all q (file_events w) (files_at name node path)
          + count_all q (directory_events w) (directories_at name node path)
          + count_process q rest
  count_process-read_entry q w missing name path rest h = absurd h
  count_process-read_entry q w (regular st) name path rest h =
      omega (arith, count_process-analyze_file q w path st rest h)
  count_process-read_entry q w (special st) name path rest h = omega arith
  count_process-read_entry q w closed name path rest h = ground arith
  count_process-read_entry q w (directory es) name path rest h = elim h [
    | inl hidden ↦ ground arith
    | inr (seen, forked, below) ↦
        ground (arith, count_process-read_entries q w es path (exit 0) below)
  ]

-- Whatever the order in which the events of a walk and its children come, they are those of each file
-- and each directory that is not hidden, once: the signals and the call of the log, if asked for, and
-- the line of the file.
pub analyze_path_complete :
    (w : Setting) (es : Entries) (path : Bytes) (events : List Event)
    → IsFine w es path
    → Runs (analyze_path w (directory es) path (exit 0)) events
    → (q : Event → Bool)
    → count q events
      ≡ count_all q (file_events w) (files_below es path)
        + count_all q (directory_events w) (path ∷ directories_below es path)
unfolding analyze_path directories_below
analyze_path_complete w es path events fine r q =
    ground (arith, count-Runs q r, count_process-read_entries q w es path (exit 0) fine)

-- A process has a run, with each child's events before what the parent does next.
pub Runs-exist : (p : Process) → (events : List Event) × Runs p events
Runs-exist (exit n) = ([], exits)
Runs-exist (crash e) = ([], crashes)
Runs-exist (emit e p) = let (es, r) = Runs-exist p in (e ∷ es, emits r)
Runs-exist (fork c p) =
    let (xs, rc) = Runs-exist c in
    let (ys, rp) = Runs-exist p in (xs ++ ys, forks rc rp (Merge-append xs ys))
