-- ===== src/Exercises/Copy.antt =====
-- The programs of Exercises/prob01 and Exercises/prob02 that copy a file.
pub mod Blocks
pub mod Screen
pub mod Texts
pub mod Agree
mod Tests
use feup_sope.Base.{ℕ, Bool, List, Option}
use feup_sope.Base.Text.{Bytes}
use feup_sope.Base.Word.{ℤ}

-- What the system answers. `content` is what a file has, where it opens for reading; `writable` is
-- whether `fopen(name, "w")` opens it, `creatable` whether `open` does with O_CREAT and O_EXCL;
-- `same_file` is whether two names are of one file, and `errno` is its value behind a failed call.
-- `read` and `write` are the answers of the call with a number, for the bytes that are left and for
-- the bytes given.
pub record Files : Type 0 where
  pub content : Bytes → Option Bytes
  pub writable : Bytes → Bool
  pub creatable : Bytes → Bool
  pub same_file : Bytes → Bytes → Bool
  pub errno : ℕ
  pub read : ℕ → Bytes → ℤ
  pub write : ℕ → Bytes → ℤ

-- A descriptor or a stream that is closed; `unset` is a variable that has not been given a value.
pub data Closed : Type 0 where
  source destination unset : Closed

-- What is printed: the usage, `perror` of a name (NULL where there is none), the text of `errno`, or
-- that a file does not open.
pub data Said : Type 0 where
  usage : Bytes → Said
  perror : Option Bytes → Said
  error_text : ℕ → Said
  could_not_open : Bytes → ℕ → Said

-- How a program ends, with what it has written to its destination.
pub record Outcome : Type 0 where
  pub code : ℤ
  pub said : List Said
  pub written : Bytes
  pub closed : List Closed
