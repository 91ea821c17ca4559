-- ===== src/Exercises/Fifo/Tests.antt =====
-- The FIFO of Exercises/prob05 with two writers.
use feup_sope.Base.{flatten, ◌≡◌, refl, arith, List, [], ◌∷◌}
use feup_sope.Base.Merges.{none_left, from_first, from_second}
use feup_sope.Base.Result.{ok, stop, out_of_bounds}
use feup_sope.Base.Text.{Bytes}
use feup_sope.Base.Word.{ℤ, pos, negsuc}
use feup_sope.Base.Stdio.{c_string}
use feup_sope.Exercises.Fifo.{readline, fifo_reader, fifo_writer, OpenMode, o_wronly, o_rdwr}
use feup_sope.Exercises.Fifo.Arrival.{strings, message, messages, fifo_reader-prints}

-- The FIFO is made behind one call of `open`.
abbrev late : OpenMode → List ℤ
late o_wronly = negsuc 0 ∷ pos 3 ∷ []
late o_rdwr = pos 3 ∷ []

-- The writer with identifier 7 starts first, and the other one ends first.
abbrev arrived : List Bytes
arrived = message 1 7 ∷ message 1 12 ∷ message 2 12 ∷ message 2 7 ∷ message 3 12 ∷ message 3 7 ∷ []

fifo_reader-prints_example :
    (fifo_writer o_wronly late 7 ≡ ok (messages 7))
    × (fifo_writer o_rdwr late 12 ≡ ok (messages 12))
    × (fifo_reader (flatten arrived) ≡ ok (flatten (strings arrived)))
fifo_reader-prints_example =
    fifo_reader-prints o_wronly o_rdwr late late 7 12 arrived refl refl (omega arith) (omega arith)
      (from_first (from_second (from_second (from_first (from_second (from_first none_left))))))

read_two : fifo_reader (98 ∷ 10 ∷ 0 ∷ 99 ∷ 0 ∷ 100 ∷ []) ≡ ok (98 ∷ 10 ∷ 99 ∷ [])
unfolding fifo_reader c_string
read_two = refl

read_long : readline 2 (98 ∷ 99 ∷ 100 ∷ 0 ∷ []) ≡ stop out_of_bounds
unfolding readline
read_long = refl
