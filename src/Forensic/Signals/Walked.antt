-- ===== src/Forensic/Signals/Walked.antt =====
-- The counters of `sig_handler` next to the walk whose processes send the signals.
use feup_sope.Base.{
  ℕ, ◌+◌, ◌≤◌, ◌<◌, ◌≡◌, ◌⊎◌, inl, inr, refl, arith, Bool, true, false, some, List, [], ◌∷◌, length,
  Bool-cases,
}
use feup_sope.Base.Text.{Bytes}
use feup_sope.Forensic.Walk.{
  Entries, directory, Setting, Event, sent, sigusr1, sigusr2, exit, analyze_path,
}
use feup_sope.Base.Merges.{count}
use feup_sope.Forensic.Walk.Complete.{
  IsFine, Runs, count_all, file_events, directory_events, files_below, directories_below,
  analyze_path_complete,
}
use feup_sope.Forensic.Signals.{Action, act_all, no_signals}
use feup_sope.Forensic.Signals.Counts.{
  is_usr1, is_usr2, sends, known_files, known_directories, act_all-counts,
}
use feup_sope.Forensic.Files.{Stat}

abbrev pub is_sent_usr1 : Event → Bool
is_sent_usr1 (sent sigusr1) = true
is_sent_usr1 _ = false

abbrev pub is_sent_usr2 : Event → Bool
is_sent_usr2 (sent sigusr2) = true
is_sent_usr2 _ = false

-- A count over a list whose entries count 1 each, or 0.
count_all-one :
    {A : Type 0} (q : Event → Bool) (f : A → List Event)
    → ((a : A) → count q (f a) ≡ 1)
    → (xs : List A) → count_all q f xs ≡ length xs
count_all-one q f each [] = omega arith
count_all-one q f each (x ∷ xs) = omega (arith, each x, count_all-one q f each xs)

count_all-none :
    {A : Type 0} (q : Event → Bool) (f : A → List Event)
    → ((a : A) → count q (f a) ≡ 0)
    → (xs : List A) → count_all q f xs ≡ 0
count_all-none q f each [] = omega arith
count_all-none q f each (x ∷ xs) = omega (arith, each x, count_all-none q f each xs)

files-usr2 :
    (w : Setting) (out_file : Bytes) (f : Bytes × Stat)
    → w.options.o_command ≡ some out_file
    → count is_sent_usr2 (file_events w f) ≡ 1
files-usr2 w out_file f e = elim (Bool-cases w.options.v_command) [
  | inl v ↦ rw (e, v) refl
  | inr v ↦ rw (e, v) refl
]

files-usr1 :
    (w : Setting) (out_file : Bytes) (f : Bytes × Stat)
    → w.options.o_command ≡ some out_file
    → count is_sent_usr1 (file_events w f) ≡ 0
files-usr1 w out_file f e = elim (Bool-cases w.options.v_command) [
  | inl v ↦ rw (e, v) refl
  | inr v ↦ rw (e, v) refl
]

directories-usr1 :
    (w : Setting) (out_file path : Bytes)
    → w.options.o_command ≡ some out_file
    → count is_sent_usr1 (directory_events w path) ≡ 1
directories-usr1 w out_file path e = rw e refl

directories-usr2 :
    (w : Setting) (out_file path : Bytes)
    → w.options.o_command ≡ some out_file
    → count is_sent_usr2 (directory_events w path) ≡ 0
directories-usr2 w out_file path e = rw e refl

known_if : {m n k : ℕ} → m ≡ k → (m ≡ 0) ⊎ (0 < n) → (k ≡ 0) ⊎ (0 < n)
known_if e h = rw (← e) h

known : {m n : ℕ} → 0 < m → (m ≡ 0) ⊎ (0 < n) → 0 < n
known lt (inl none_sent) = absurd (omega (arith, lt, none_sent))
known lt (inr h) = h

-- With an output file, and where the walk succeeds, the handler of the first process has not counted
-- more files than are to be analysed, or more directories than are to be entered, in whatever order
-- the signals of the walk are sent and delivered; and where there is a file it knows of one, counted or
-- pending, as it does of a directory.
pub walk-Counted :
    (w : Setting) (es : Entries) (path out_file : Bytes) (events : List Event)
    (actions : List Action)
    → IsFine w es path
    → Runs (analyze_path w (directory es) path (exit 0)) events
    → w.options.o_command ≡ some out_file
    → sends is_usr2 actions ≡ count is_sent_usr2 events
    → sends is_usr1 actions ≡ count is_sent_usr1 events
    → let m = act_all w.options actions no_signals in
      let files = length (files_below es path) in
      (m.counters.n_files ≤ files)
      × (m.counters.n_directory ≤ 1 + length (directories_below es path))
      × ((files ≡ 0) ⊎ (0 < known_files m))
      × (0 < known_directories m)
walk-Counted w es path out_file events actions fine runs e sent_files sent_directories =
    let counts = act_all-counts w.options actions in
    let all2 = analyze_path_complete w es path events fine runs is_sent_usr2 in
    let all1 = analyze_path_complete w es path events fine runs is_sent_usr1 in
    let files2 =
      count_all-one is_sent_usr2 (file_events w) (λ f. files-usr2 w out_file f e)
        (files_below es path) in
    let files1 =
      count_all-none is_sent_usr1 (file_events w) (λ f. files-usr1 w out_file f e)
        (files_below es path) in
    let directories2 =
      count_all-none is_sent_usr2 (directory_events w) (λ p. directories-usr2 w out_file p e)
        (path ∷ directories_below es path) in
    let directories1 =
      count_all-one is_sent_usr1 (directory_events w) (λ p. directories-usr1 w out_file p e)
        (path ∷ directories_below es path) in
    let sent2 : sends is_usr2 actions ≡ length (files_below es path) =
      omega (arith, sent_files, all2, files2, directories2) in
    let sent1 : sends is_usr1 actions ≡ 1 + length (directories_below es path) =
      omega (arith, sent_directories, all1, files1, directories1) in
    (
      omega (arith, counts.0, sent2),
      omega (arith, counts.1, sent1),
      known_if sent2 counts.2,
      known (omega (arith, sent1)) counts.3,
    )
