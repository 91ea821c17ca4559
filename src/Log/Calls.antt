-- ===== src/Log/Calls.antt =====
-- What every call of a log_ function of general_aux.c gives to `write` is one line.
use feup_sope.Base.{
  ℕ, ◌^◌, ◌≤◌, ◌<◌, ◌≡◌, refl, arith, [], length, some, take, ◌-◌, ◌++◌, ◌∙◌, take_all,
  length-append, length-replicate, ◌∷◌, ap,
}
use feup_sope.Base.Text.{Bytes, codes}
use feup_sope.Bank.Types.{
  Request, LogCall, request, OpType, ReqArgs, Reply, reply, op_other, op_create_account, op_balance,
  op_transfer, op_shutdown,
}
use feup_sope.Log.{
  Process, log_call, log_request, atomic_printf, log_base_request_info, op_type_str, request_rest,
  base_request_text, log_reply, reply_rest, log_base_reply_info, base_reply_text, blank_dec,
  width_balance, to_int, euro, newline,
}
use feup_sope.Log.Lines.{
  newlines, plain, last_or-append, IsEntry, last_or, newlines-zero_dec, newlines-blank_dec,
  newlines-append, length-blank_dec, length-zero_dec,
}
use feup_sope.Log.Texts.{
  IsPassword, IsWordRequest, length-base_request_text, length-base_reply_text,
  newlines-base_reply_text, newlines-base_request_text,
}
use feup_sope.Base.Format.Decimal.{length-print_dec}

-- What `log_call` gives to `write` is one line, whole.
abbrev pub PrintsEntry : Process → LogCall → Type 0
PrintsEntry os l = (text : Bytes) × (log_call os l ≡ some (atomic_printf os text)) × IsEntry text

take_short : (k : ℕ) (s : Bytes) → length s < k → take (k - 1) s ≡ s
take_short k s h = take_all (k - 1) s (omega arith)

-- What ends a line, whatever stands before it.
abbrev pub IsRest : Bytes → Type 0
IsRest s = (newlines s ≡ 1) × ((d : ℕ) → last_or d s ≡ 10) × (length s ≤ 200)

IsRest-IsEntry : (s t : Bytes) → newlines s ≡ 0 → length s ≤ 200 → IsRest t → IsEntry (s ++ t)
IsRest-IsEntry s t hn hl h = (
  omega (arith, newlines-append s t, h.0),
  last_or-append 0 s t ∙ h.1 (last_or 0 s),
  omega (arith, length-append s t, h.2),
)

abbrev IsName : Bytes → Type 0
IsName op = (newlines op ≡ 0) × (length op ≤ 8)

op_type_str-IsName : (o : OpType) (op : Bytes) → op_type_str o ≡ some op → IsName op
op_type_str-IsName o op h = ground arith

IsRest-some : (s t : Bytes) → some s ≡ some t → IsRest s → IsRest t
IsRest-some s t h r = let e : s ≡ t = cc in rw (← e) r

IsRest-newline : IsRest (10 ∷ [])
IsRest-newline = (refl, λ d. refl, omega arith)

request_rest-IsRest :
    (o : OpType) (a : ReqArgs) (rest : Bytes)
    → a.account_id < 2 ^ 32
    → a.amount < 2 ^ 32
    → IsPassword a.password
    → request_rest o a ≡ some rest
    → IsRest rest
request_rest-IsRest op_create_account a rest ha hm hp h = IsRest-some _ rest h (
  simp (plain, newlines-zero_dec, hp.0) refl,
  λ d. simp last_or-append refl,
  simp (length-append, length-replicate)
      (omega (
        arith,
        length-zero_dec 4 a.account_id ha,
        length-print_dec a.amount 9 (omega arith),
        hp.1,
      )),
)
request_rest-IsRest op_balance a rest ha hm hp h = IsRest-some _ rest h IsRest-newline
request_rest-IsRest op_transfer a rest ha hm hp h = IsRest-some _ rest h (
  simp (plain, newlines-zero_dec) refl,
  λ d. simp last_or-append refl,
  simp (length-append, length-replicate)
      (omega (arith, length-zero_dec 4 a.account_id ha, length-print_dec a.amount 9 (omega arith))),
)
request_rest-IsRest op_shutdown a rest ha hm hp h = IsRest-some _ rest h IsRest-newline
request_rest-IsRest (op_other n) a rest ha hm hp h = absurd cc

amount-IsRest :
    (payload : ℕ)
    → payload < 2 ^ 32
    → IsRest (codes " " ++ blank_dec width_balance (to_int payload) ++ euro ++ newline)
amount-IsRest payload hp = (
  simp (plain, newlines-blank_dec) refl,
  λ d. simp last_or-append refl,
  simp length-append (omega (arith, length-blank_dec 10 payload hp)),
)

reply_rest-IsRest :
    (o : OpType) (payload : ℕ) (rest : Bytes)
    → payload < 2 ^ 32
    → reply_rest o payload ≡ some rest
    → IsRest rest
reply_rest-IsRest op_create_account payload rest hp h = IsRest-some _ rest h IsRest-newline
reply_rest-IsRest op_balance payload rest hp h = IsRest-some _ rest h (amount-IsRest payload hp)
reply_rest-IsRest op_transfer payload rest hp h = IsRest-some _ rest h (amount-IsRest payload hp)
reply_rest-IsRest op_shutdown payload rest hp h = IsRest-some _ rest h (
  simp (plain, newlines-blank_dec) refl,
  λ d. simp last_or-append refl,
  simp length-append (omega (arith, length-blank_dec 0 payload hp)),
)
reply_rest-IsRest (op_other n) payload rest hp h = absurd cc

module _ (os : Process) (big : 512 ≤ os.pipe_buf) where
  log_request_eq :
      (id : ℕ) (req : Request) (op rest : Bytes)
      → op_type_str req.op ≡ some op
      → request_rest req.op req.args ≡ some rest
      → log_request os id (some req)
        ≡ some (atomic_printf os (take (os.pipe_buf - 1) (base_request_text os id req op) ++ rest))
  unfolding log_request log_base_request_info
  log_request_eq id req op rest eo er = ground arith

  log_reply_eq :
      (id : ℕ) (r : Reply) (op rest : Bytes)
      → op_type_str r.op ≡ some op
      → reply_rest r.op r.payload ≡ some rest
      → log_reply os id (some r)
        ≡ some (atomic_printf os (take (os.pipe_buf - 1) (base_reply_text os id r op) ++ rest))
  unfolding log_reply log_base_reply_info
  log_reply_eq id r op rest eo er = ground arith

  pub request_entry :
      (id : ℕ) (req : Request) (op rest : Bytes)
      → id < 2 ^ 32
      → IsWordRequest req
      → IsPassword req.header.password
      → IsPassword req.args.password
      → op_type_str req.op ≡ some op
      → request_rest req.op req.args ≡ some rest
      → PrintsEntry os (request id req)
  unfolding log_call
  request_entry id req op rest hi hr hp hq eo er =
      let name = op_type_str-IsName req.op op eo in
      let base = base_request_text os id req op in
      let short = length-base_request_text os id req op hi hr.0 hr.1 hr.2 hp.1 hr.3 name.1 in
      (
        base ++ rest,
        log_request_eq id req op rest eo er
            ∙ ap (λ t. some (atomic_printf os (t ++ rest)))
                (take_short os.pipe_buf base (omega (arith, short))),
        IsRest-IsEntry base rest (newlines-base_request_text os id req op hp.0 name.0) short
            (request_rest-IsRest req.op req.args rest hr.4 hr.5 hq er),
      )

  pub reply_entry :
      (id : ℕ) (r : Reply) (op rest : Bytes)
      → id < 2 ^ 32
      → r.length < 2 ^ 32
      → r.account_id < 2 ^ 32
      → r.payload < 2 ^ 32
      → op_type_str r.op ≡ some op
      → reply_rest r.op r.payload ≡ some rest
      → PrintsEntry os (reply id r)
  unfolding log_call
  reply_entry id r op rest hi hl ha hp eo er =
      let name = op_type_str-IsName r.op op eo in
      let base = base_reply_text os id r op in
      let short = length-base_reply_text os id r op hi hl ha name.1 in
      (
        base ++ rest,
        log_reply_eq id r op rest eo er
            ∙ ap (λ t. some (atomic_printf os (t ++ rest)))
                (take_short os.pipe_buf base (omega (arith, short))),
        IsRest-IsEntry base rest (newlines-base_reply_text os id r op name.0) short
            (reply_rest-IsRest r.op r.payload rest hp er),
      )

  pub text_entry :
      (l : LogCall) (text : Bytes)
      → log_call os l ≡ some (atomic_printf os text)
      → IsRest text
      → PrintsEntry os l
  text_entry l text e h = (text, e, (h.0, h.1 0, omega (arith, h.2)))
