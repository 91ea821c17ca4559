-- ===== src/Forensic/Signals/Counts.antt =====
-- What the counters of `sig_handler` say of the signals that were sent.
use feup_sope.Base.{
  ℕ, ◌+◌, ◌≤◌, ◌<◌, arith, Bool, true, false, List, [], ◌∷◌, if◌then◌else◌, ◌≡◌, ◌⊎◌, dec_lt, inr,
  inl,
}
use feup_sope.Forensic.{Options}
use feup_sope.Forensic.Signals.{Action, send_usr1, send_usr2, Mailbox, act, act_all, no_signals}

abbrev pub is_usr1 : Action → Bool
is_usr1 send_usr1 = true
is_usr1 _ = false

abbrev pub is_usr2 : Action → Bool
is_usr2 send_usr2 = true
is_usr2 _ = false

-- How many of the actions are of a kind.
abbrev pub sends : (Action → Bool) → List Action → ℕ
sends q [] = 0
sends q (a ∷ rest) = (if q a then 1 else 0) + sends q rest

abbrev pub bit : Bool → ℕ
bit b = if b then 1 else 0

-- The files that are counted or pending, and the directories.
abbrev pub known_files : Mailbox → ℕ
known_files m = m.counters.n_files + bit m.pending_usr2

abbrev pub known_directories : Mailbox → ℕ
known_directories m = m.counters.n_directory + bit m.pending_usr1

act-bounds :
    (o : Options) (a : Action) (m : Mailbox)
    → (known_files (act o a m) ≤ known_files m + bit (is_usr2 a))
      × (known_directories (act o a m) ≤ known_directories m + bit (is_usr1 a))
      × (known_files m ≤ known_files (act o a m))
      × (known_directories m ≤ known_directories (act o a m))
      × (bit (is_usr2 a) ≤ known_files (act o a m))
      × (bit (is_usr1 a) ≤ known_directories (act o a m))
unfolding act
act-bounds o a m = ground arith

act_all-bounds :
    (o : Options) (actions : List Action) (m : Mailbox)
    → (known_files (act_all o actions m) ≤ known_files m + sends is_usr2 actions)
      × (known_directories (act_all o actions m) ≤ known_directories m + sends is_usr1 actions)
      × (known_files m ≤ known_files (act_all o actions m))
      × (known_directories m ≤ known_directories (act_all o actions m))
unfolding act_all
act_all-bounds o [] m = omega arith
act_all-bounds o (a ∷ rest) m = omega (arith, act-bounds o a m, act_all-bounds o rest (act o a m))

some_sent :
    (o : Options) (actions : List Action) (m : Mailbox)
    → (0 < sends is_usr2 actions → 0 < known_files (act_all o actions m))
      × (0 < sends is_usr1 actions → 0 < known_directories (act_all o actions m))
unfolding act_all
some_sent o [] m = ground arith
some_sent o (a ∷ rest) m =
    ground
      (arith, act-bounds o a m, act_all-bounds o rest (act o a m), some_sent o rest (act o a m))

none_or_some : {m n : ℕ} → (0 < m → 0 < n) → (m ≡ 0) ⊎ (0 < n)
none_or_some {m} h = elim (dec_lt 0 m) [
  | yes some ↦ inr (h some)
  | no none_sent ↦ inl (omega (arith, none_sent))
]

-- Whatever is sent and delivered in whatever order, the handler has not counted more files and
-- directories than signals were sent for; where one was sent, one is counted or pending.
pub act_all-counts :
    (o : Options) (actions : List Action)
    → let m = act_all o actions no_signals in
      (m.counters.n_files ≤ sends is_usr2 actions)
      × (m.counters.n_directory ≤ sends is_usr1 actions)
      × ((sends is_usr2 actions ≡ 0) ⊎ (0 < known_files m))
      × ((sends is_usr1 actions ≡ 0) ⊎ (0 < known_directories m))
act_all-counts o actions =
    let bounds = act_all-bounds o actions no_signals in
    let some = some_sent o actions no_signals in
    (omega arith, omega arith, none_or_some some.0, none_or_some some.1)
