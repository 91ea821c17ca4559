-- ===== src/Server/Serve/Semaphores.antt =====
-- The account semaphores around a request: what `serve` takes it gives back, or it never returns.
use feup_sope.Base.{ℕ, ◌+◌, ◌≡◌, ◌⊎◌, inl, inr, true, arith, ◌==◌, if◌then◌else◌, sym, ◌∷◌}
use feup_sope.Bank.Types.{Slot, Request, Reply, request}
use feup_sope.Bank.State.{
  Host, Bank, Ensures, Ensures-bind, Ensures-forall, Ensures-and, Ensures-map,
}
use mathlib.Core.Path.{subst}
use feup_sope.Bank.Invariant.{IsValid, IsValidSlot}
use feup_sope.Bank.Reply.{build_tlv_reply}
use feup_sope.Bank.Semaphores.{IsSame, IsNew, SlotStep, build_tlv_reply-SlotStep}
use feup_sope.Server.Serve.{
  enter_account, leave_account, acquire, release, send_reply, serve, is_transfer,
}

-- The number of times that a wait or a post for account `i` counts at entry `j`.
abbrev pub holds : Bank → ℕ → ℕ → ℕ
holds b i j = if i == j then (if (b.accounts j).active then 1 else 0) else 0

-- The same for all the accounts of a request.
abbrev pub request_holds : Request → Bank → ℕ → ℕ
request_holds req b j =
    holds b req.header.account_id j
    + (if is_transfer req.op then holds b req.args.account_id j else 0)

abbrev pub semaphore_of : Bank → ℕ → ℕ
semaphore_of b j = (b.accounts j).semaphore

-- The entry is as before but for its semaphore.
pub record IsTaken (n : ℕ) (s s' : Slot) : Type 0 where
  pub account : s'.bank_account ≡ s.bank_account
  pub active : s'.active ≡ s.active
  pub taken : s'.semaphore + n ≡ s.semaphore

pub record IsGiven (n : ℕ) (s s' : Slot) : Type 0 where
  pub account : s'.bank_account ≡ s.bank_account
  pub active : s'.active ≡ s.active
  pub given : s'.semaphore ≡ s.semaphore + n

module _ (j : ℕ) where
  enter_account-IsTaken :
      (i id delay_ms : ℕ) (b : Bank)
      → Ensures
          (λ _ b'. IsTaken (holds b i j) (b.accounts j) (b'.accounts j))
          (enter_account i id delay_ms b)
  unfolding enter_account
  enter_account-IsTaken i id delay_ms b = ground arith

  leave_account-IsGiven :
      (i id : ℕ) (b : Bank)
      → Ensures
          (λ _ b'. IsGiven (holds b i j) (b.accounts j) (b'.accounts j))
          (leave_account i id b)
  unfolding leave_account
  leave_account-IsGiven i id b = ground arith

  acquire-IsTaken :
      (req : Request) (id : ℕ) (b : Bank)
      → Ensures
          (λ _ b'. IsTaken (request_holds req b j) (b.accounts j) (b'.accounts j))
          (acquire req id b)
  unfolding acquire
  acquire-IsTaken req id b =
      Ensures-bind
        (λ _ b'. IsTaken (holds b req.header.account_id j) (b.accounts j) (b'.accounts j)) _
        (enter_account req.header.account_id id req.header.op_delay_ms b) _
        (enter_account-IsTaken req.header.account_id id req.header.op_delay_ms b)
        λ _ b' first.
          ground (arith, enter_account-IsTaken req.args.account_id id req.header.op_delay_ms b')

  release-IsGiven :
      (req : Request) (id : ℕ) (b : Bank)
      → Ensures
          (λ _ b'. IsGiven (request_holds req b j) (b.accounts j) (b'.accounts j))
          (release req id b)
  unfolding release
  release-IsGiven req id b =
      Ensures-bind
        (λ _ b'. IsGiven (holds b req.header.account_id j) (b.accounts j) (b'.accounts j)) _
        (leave_account req.header.account_id id b) _
        (leave_account-IsGiven req.header.account_id id b)
        λ _ b' first. ground (arith, leave_account-IsGiven req.args.account_id id b')

  -- The entry is at rest as it was, or it is that of an account just made, whose semaphore is free.
  abbrev pub IsRestored : Bank → Bank → Type 0
  IsRestored b b' = IsSame (b.accounts j) (b'.accounts j) ⊎ IsNew (b.accounts j) (b'.accounts j)

  valid_after : (n i : ℕ) (s s' : Slot) → IsTaken n s s' → IsValidSlot i s → IsValidSlot i s'
  valid_after n i s s' t v = ground arith

  give_back :
      (req : Request) (b b₁ b₂ b₃ : Bank)
      → IsTaken (request_holds req b j) (b.accounts j) (b₁.accounts j)
      → SlotStep req j b₁ b₂
      → IsGiven (request_holds req b₂ j) (b₂.accounts j) (b₃.accounts j)
      → IsRestored b b₃
  give_back req b b₁ b₂ b₃ t (inl same) g = inl (ground arith)
  give_back req b b₁ b₂ b₃ t (inr (new, op, ne)) g = inr (ground arith)

  send_reply-keeps :
      (host : Host) (pid : ℕ) (r : Reply) (b : Bank)
      → Ensures (λ _ b'. b'.accounts ≡ b.accounts) (send_reply host pid r b)
  unfolding send_reply
  send_reply-keeps host pid r b = ground arith

-- An acquired bank is as well formed as before, at every entry.
acquire-IsValid :
    (req : Request) (id : ℕ) (b : Bank)
    → IsValid b
    → Ensures (λ _ b'. IsValid b') (acquire req id b)
acquire-IsValid req id b v =
    Ensures-forall (λ i _ b'. IsValidSlot i (b'.accounts i)) (acquire req id b)
      λ i.
        Ensures-map (λ _ b'. IsTaken (request_holds req b i) (b.accounts i) (b'.accounts i)) _
          (acquire req id b) (acquire-IsTaken i req id b)
          λ _ b' t. valid_after i (request_holds req b i) i (b.accounts i) (b'.accounts i) t (v i)

serve-IsRestored :
    (j : ℕ) (host : Host) (req : Request) (garbage : Reply) (id : ℕ) (b : Bank)
    → IsValid b
    → Ensures (λ _ b'. IsRestored j b b') (serve host req garbage id b)
unfolding serve
serve-IsRestored j host req garbage id b v =
    let b₀ : Bank = record b {
      log = request id req ∷ b.log;
      active_threads = b.active_threads + 1;
    } in
    Ensures-bind
      (λ _ b₁. IsTaken (request_holds req b j) (b.accounts j) (b₁.accounts j) × IsValid b₁) _
      (acquire req id b₀) _
      (Ensures-and (λ _ b₁. IsTaken (request_holds req b j) (b.accounts j) (b₁.accounts j))
        (λ _ b₁. IsValid b₁) (acquire req id b₀) (acquire-IsTaken j req id b₀)
        (acquire-IsValid req id b₀ v))
      λ _ b₁ taken.
        Ensures-bind (λ _ b₂. SlotStep req j b₁ b₂) _ (build_tlv_reply host req garbage id b₁) _
          (build_tlv_reply-SlotStep j host req garbage id b₁ (taken.1 req.args.account_id))
          λ answer b₂ step.
            Ensures-bind (λ _ b₃. IsGiven (request_holds req b₂ j) (b₂.accounts j) (b₃.accounts j))
              _ (release req id b₂) _ (release-IsGiven j req id b₂)
              λ _ b₃ given.
                Ensures-bind (λ _ b₄. b₄.accounts ≡ b₃.accounts) _
                  (send_reply host req.header.pid answer b₃) _
                  (send_reply-keeps j host req.header.pid answer b₃)
                  λ final b₄ same.
                    subst (λ accounts. IsRestored j b (record b₄ { accounts = accounts }))
                      (sym same) (give_back j req b b₁ b₂ b₃ taken.0 step given)

-- Between two requests every account in use can be entered.
abbrev pub IsFree : Bank → Type 0
IsFree b = (i : ℕ) → (b.accounts i).active ≡ true → semaphore_of b i ≡ 1

-- A request that is answered leaves every semaphore of an account free that was free before, and
-- so that of an account that it made.
pub serve-IsFree :
    (host : Host) (req : Request) (garbage : Reply) (id : ℕ) (b : Bank)
    → IsValid b
    → IsFree b
    → Ensures (λ _ b'. IsFree b') (serve host req garbage id b)
serve-IsFree host req garbage id b v free =
    Ensures-forall (λ i _ b'. (b'.accounts i).active ≡ true → semaphore_of b' i ≡ 1)
      (serve host req garbage id b)
      λ i.
        Ensures-map (λ _ b'. IsRestored i b b') _ (serve host req garbage id b)
          (serve-IsRestored i host req garbage id b v) λ _ b' restored. ground (arith, free i)
