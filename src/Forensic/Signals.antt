-- ===== src/Forensic/Signals.antt =====
-- The signals that the processes of a walk send to the first one, `sig_handler` and `log_command` of
-- Project1/forensic.c.
pub mod Counts
pub mod Walked
use feup_sope.Base.{
  ℕ, suc, ◌+◌, ◌-◌, ◌/◌, Bool, true, false, Option, none, some, List, [], ◌∷◌, ◌++◌, ltb, ◌==◌,
  if◌then◌else◌,
}
use feup_sope.Base.Result.{Result}
use feup_sope.Base.Text.{Bytes, codes}
use feup_sope.Base.Format.{print_dec}
use feup_sope.Forensic.{Options}
use feup_sope.Forensic.Files.{fit}
use feup_sope.Forensic.Walk.{Event, logged, saved, Signal, sigusr1, sigusr2, sigint}

-- `(time_now.tv_usec - options.start_time.tv_usec) / 1000` with "%0.02f": the quotient is an integer.
abbrev inst_text : ℕ → ℕ → Bytes
inst_text start now =
    let back = (start - now) / 1000 in
    if ltb start now
    then print_dec ((now - start) / 1000) ++ codes ".00"
    else if back == 0
    then codes "0.00"
    else b'-' ∷ (print_dec back ++ codes ".00")

-- The line of `log_command`, in its array of 512 bytes; `start` and `now` are microseconds in a second.
unfoldable pub log_command : ℕ → ℕ → ℕ → Bytes → Result Bytes
log_command start now pid command = fit 512 (
    codes "inst:"
    ++ inst_text start now
    ++ codes " - pid: "
    ++ print_dec pid
    ++ codes " - act: "
    ++ command
    ++ 10 ∷ [])

-- The static counters of the handler.
pub record Counters : Type 0 where
  pub n_directory : ℕ
  pub n_files : ℕ

pub record Handled : Type 0 where
  pub counters : Counters
  pub events : List Event
  pub exits : Bool

abbrev log_act : Bool → Bytes → List Event
log_act true act = logged act ∷ []
log_act false act = []

abbrev directory_message : Option Bytes → Counters → List Event
directory_message none c = []
directory_message (some out_file) c =
    saved (
      codes "New directory: "
      ++ print_dec c.n_directory
      ++ codes "/ "
      ++ print_dec c.n_files
      ++ codes " directories/files at this time."
      ++ 10 ∷ [])
    ∷ []

unfoldable pub sig_handler : Options → Signal → Counters → Handled
sig_handler o sigusr1 c =
    let c' = record c { n_directory = c.n_directory + 1 } in
    record {
      counters = c';
      events = log_act o.v_command (codes "SIGNAL SIGUSR1") ++ directory_message o.o_command c';
      exits = false;
    }
sig_handler o sigusr2 c = record {
  counters = record c { n_files = c.n_files + 1 };
  events = log_act o.v_command (codes "SIGNAL SIGUSR2");
  exits = false;
}
sig_handler o sigint c = record {
  counters = c;
  events = log_act o.v_command (codes "SIGNAL SIGINT");
  exits = true;
}

-- A signal that is sent is pending until it is delivered. That it is pending is one bit.
pub record Mailbox : Type 0 where
  pub counters : Counters
  pub pending_usr1 : Bool
  pub pending_usr2 : Bool

pub data Action : Type 0 where
  send_usr1 send_usr2 deliver_usr1 deliver_usr2 : Action

abbrev deliver : Options → Bool → Signal → Counters → Counters
deliver o true s c = (sig_handler o s c).counters
deliver o false s c = c

unfoldable pub act : Options → Action → Mailbox → Mailbox
unfolding sig_handler
act o send_usr1 m = record m { pending_usr1 = true }
act o send_usr2 m = record m { pending_usr2 = true }
act o deliver_usr1 m = record m {
  counters = deliver o m.pending_usr1 sigusr1 m.counters;
  pending_usr1 = false;
}
act o deliver_usr2 m = record m {
  counters = deliver o m.pending_usr2 sigusr2 m.counters;
  pending_usr2 = false;
}

unfoldable pub act_all : Options → List Action → Mailbox → Mailbox
unfolding act
act_all o [] m = m
act_all o (a ∷ rest) m = act_all o rest (act o a m)

abbrev pub no_signals : Mailbox
no_signals = record {
  counters = record { n_directory = 0; n_files = 0 };
  pending_usr1 = false;
  pending_usr2 = false;
}
