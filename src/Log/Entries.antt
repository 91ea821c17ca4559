-- ===== src/Log/Entries.antt =====
-- The texts of log.c that are printed at once are lines, for words of 32 bits and texts that fit.
use feup_sope.Base.{
  ℕ, suc, ◌^◌, ◌≤◌, ◌<◌, ◌≡◌, refl, arith, Bool, true, false, some, [], ◌∷◌, ◌++◌, length, zero,
  length-append, length-replicate,
}
use feup_sope.Base.Text.{Bytes}
use feup_sope.Log.{
  Process, delay_text, sync_delay_text, bank_office_text, from_index, sync_mech_text,
  sync_mech_sem_text, sync_role_char, op_type_str, sync_mech_str, account_creation_text, newline,
}
use feup_sope.Log.Lines.{
  newlines, plain, last_or-append, newlines-zero_dec, newlines-blank_dec, length-zero_dec,
  length-blank_dec,
}
use feup_sope.Log.Texts.{IsPassword, IsWordRequest}
use feup_sope.Log.Calls.{IsRest}
use feup_sope.Base.Format.Decimal.{length-print_dec}
use feup_sope.Bank.Types.{
  office_open, office_close, request, account_creation, reply, sync_mech, sync_mech_sem, delay,
  sync_delay, SyncRole, LogCall, OpType, SyncMechOp, BankAccount, salt_len, hash_len,
}

-- The operation is one of the four.
abbrev pub HasName : OpType → Type 0
HasName o = (op : Bytes) × (op_type_str o ≡ some op)

-- The words of a call have 32 bits, its texts fit their fields, and its operation is an enumerator.
abbrev pub IsLoggable : LogCall → Type 0
IsLoggable (office_open id) = id < 2 ^ 32
IsLoggable (office_close id) = id < 2 ^ 32
IsLoggable (request id req) =
    (id < 2 ^ 32)
    × IsWordRequest req
    × IsPassword req.header.password
    × IsPassword req.args.password
    × HasName req.op
IsLoggable (account_creation id a) =
    (id < 2 ^ 32)
    × (a.account_id < 2 ^ 32)
    × (newlines a.salt ≡ 0)
    × (length a.salt ≤ salt_len)
    × (newlines a.hash ≡ 0)
    × (length a.hash ≤ hash_len)
IsLoggable (reply id r) =
    (id < 2 ^ 32)
    × (r.length < 2 ^ 32)
    × (r.account_id < 2 ^ 32)
    × (r.payload < 2 ^ 32)
    × HasName r.op
IsLoggable (sync_mech id smo role sid) = (id < 2 ^ 32) × (sid < 2 ^ 32)
IsLoggable (sync_mech_sem id smo role sid val) = (id < 2 ^ 32) × (sid < 2 ^ 32) × (val < 2 ^ 32)
IsLoggable (delay delay_ms) = delay_ms < 2 ^ 32
IsLoggable (sync_delay id sid delay_ms) = (id < 2 ^ 32) × (sid < 2 ^ 32) × (delay_ms < 2 ^ 32)

newlines-from_index : (n : ℕ) (s : Bytes) → newlines s ≡ 0 → newlines (from_index n s) ≡ 0
newlines-from_index zero s h = h
newlines-from_index (suc n) [] h = refl
newlines-from_index (suc n) (c ∷ cs) h = newlines-from_index n cs (ground arith)

length-from_index : (n : ℕ) (s : Bytes) → length (from_index n s) ≤ length s
length-from_index zero s = omega arith
length-from_index (suc n) [] = omega arith
length-from_index (suc n) (c ∷ cs) = omega (arith, length-from_index n cs)

pub office-IsRest :
    (os : Process) (id : ℕ) (opens : Bool)
    → ((i : ℕ) → os.tid i < 2 ^ 64)
    → id < 2 ^ 32
    → IsRest (bank_office_text os id opens)
office-IsRest os id true tids h = (
  simp (plain, newlines-zero_dec) refl,
  λ d. simp last_or-append refl,
  simp (length-append, length-replicate)
      (omega
        (arith, length-zero_dec 5 id h, length-print_dec (os.tid id) 19 (omega (arith, tids id)))),
)
office-IsRest os id false tids h = (
  simp (plain, newlines-zero_dec) refl,
  λ d. simp last_or-append refl,
  simp (length-append, length-replicate)
      (omega
        (arith, length-zero_dec 5 id h, length-print_dec (os.tid id) 19 (omega (arith, tids id)))),
)

pub account-IsRest :
    (id : ℕ) (a : BankAccount)
    → IsLoggable (account_creation id a)
    → IsRest (account_creation_text id a)
account-IsRest id a h = (
  simp (plain, newlines-zero_dec, h.2, newlines-from_index 59 a.hash h.4) refl,
  λ d. simp last_or-append refl,
  simp (length-append, length-replicate)
      (omega (
        arith,
        length-zero_dec 5 id h.0,
        length-zero_dec 4 a.account_id h.1,
        h.3,
        h.5,
        length-from_index 59 a.hash,
      )),
)

length-sync_mech_str : (o : SyncMechOp) → length (sync_mech_str o) ≤ 13
length-sync_mech_str o = ground arith

newlines-sync_mech_str : (o : SyncMechOp) → newlines (sync_mech_str o) ≡ 0
newlines-sync_mech_str o = ground arith

length-sync_role_char : (r : SyncRole) → length (sync_role_char r) ≡ 1
length-sync_role_char r = ground arith

newlines-sync_role_char : (r : SyncRole) → newlines (sync_role_char r) ≡ 0
newlines-sync_role_char r = ground arith

pub sync_mech-IsRest :
    (id : ℕ) (smo : SyncMechOp) (role : SyncRole) (sid : ℕ)
    → id < 2 ^ 32
    → sid < 2 ^ 32
    → IsRest (sync_mech_text id smo role sid ++ newline)
sync_mech-IsRest id smo role sid hi hs = (
  simp (plain, newlines-zero_dec, newlines-sync_role_char, newlines-sync_mech_str) refl,
  λ d. simp last_or-append refl,
  simp (length-append, length-sync_role_char)
      (omega (arith, length-zero_dec 5 id hi, length-zero_dec 5 sid hs, length-sync_mech_str smo)),
)

pub sync_mech_sem-IsRest :
    (id : ℕ) (smo : SyncMechOp) (role : SyncRole) (sid val : ℕ)
    → id < 2 ^ 32
    → sid < 2 ^ 32
    → val < 2 ^ 32
    → IsRest (sync_mech_sem_text id smo role sid val)
sync_mech_sem-IsRest id smo role sid val hi hs hv = (
  simp
      (
        plain, newlines-zero_dec, newlines-blank_dec, newlines-sync_role_char,
        newlines-sync_mech_str,
      )
      refl,
  λ d. simp last_or-append refl,
  simp (length-append, length-sync_role_char)
      (omega (
        arith,
        length-zero_dec 5 id hi,
        length-zero_dec 5 sid hs,
        length-blank_dec 0 val hv,
        length-sync_mech_str smo,
      )),
)

pub delay-IsRest :
    (id delay_ms : ℕ) → id < 2 ^ 32 → delay_ms < 2 ^ 32 → IsRest (delay_text id delay_ms)
delay-IsRest id delay_ms hi hd = (
  simp (plain, newlines-zero_dec) refl,
  λ d. simp last_or-append refl,
  simp (length-append, length-replicate)
      (omega (arith, length-zero_dec 5 id hi, length-print_dec delay_ms 9 (omega arith))),
)

pub sync_delay-IsRest :
    (id sid delay_ms : ℕ)
    → id < 2 ^ 32
    → sid < 2 ^ 32
    → delay_ms < 2 ^ 32
    → IsRest (sync_delay_text id sid delay_ms)
sync_delay-IsRest id sid delay_ms hi hs hd = (
  simp (plain, newlines-zero_dec) refl,
  λ d. simp last_or-append refl,
  simp (length-append, length-replicate)
      (omega (
        arith,
        length-zero_dec 5 id hi,
        length-zero_dec 5 sid hs,
        length-print_dec delay_ms 9 (omega arith),
      )),
)
