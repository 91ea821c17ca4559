-- ===== src/Base/Result.antt =====
-- What a function of the programs gives: a value, or the reason why it does not get to its end.

-- An access outside of an array, a NULL pointer, `exit(EXIT_FAILURE)`, or a wait for a semaphore
-- that is 0.
pub data Stop : Type 0 where
  out_of_bounds null_pointer exit_failure blocked : Stop

pub data Result (A : Type 0) : Type 0 where
  ok : A → Result A
  stop : Stop → Result A
