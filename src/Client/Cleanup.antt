-- ===== src/Client/Cleanup.antt =====
-- What the client, Project2/source/user.c, does at its exit: its handler, which removes its FIFO.
use feup_sope.Base.{
  arith, ◌≡◌, refl, ◌&&◌, Bool, true, false, Option, none, some, List, [], ◌∷◌, if◌then◌else◌, ap,
  ◌∙◌,
}
use feup_sope.Base.Word.{ℤ, pos}
use feup_sope.Bank.Types.{Request, Reply}
use feup_sope.Client.{World, Mkfifo, made, exists, failed, run_request}

-- Whether there is a file with the name of the FIFO behind the calls of `create_fifo`. A call of mkfifo
-- that fails for another reason than EEXIST leaves what there was.
unfoldable pub is_left : List Mkfifo → Bool → Bool
is_left [] there = there
is_left (made ∷ calls) there = true
is_left (exists true ∷ calls) there = is_left calls false
is_left (exists false ∷ calls) there = true
is_left (failed ∷ calls) there = there

-- The exit status, and whether the file is there.
pub record Exit : Type 0 where
  pub status : Option ℤ
  pub fifo : Bool

-- `remove_fifo`, for whether unlink succeeds.
abbrev pub remove_fifo : Bool → Exit → Exit
remove_fifo true e = record e { fifo = false }
remove_fifo false e = record e { status = some (pos 1) }

-- `exit_handler`, for whether `user_fifo_path` has been set.
unfoldable pub exit_handler : Bool → Bool → Exit → Exit
exit_handler path_is_set unlinks e = if path_is_set && e.fifo then remove_fifo unlinks e else e

-- `exit` with this code behind the run; `there` is whether there is a file with the name of the FIFO at
-- the start, and `create_fifo` is called behind the line that sets the path.
abbrev at_exit : Bool → Bool → World → Bool → Option ℤ → Option Exit
at_exit there unlinks w path_is_set none = none
at_exit there unlinks w path_is_set (some code) =
    let fifo : Bool = if path_is_set then is_left w.mkfifo there else there in
    some (exit_handler path_is_set unlinks (record { status = some code; fifo = fifo }))

-- From the log of the request on, to the end of the process; `none` while it has not ended.
unfoldable pub user_exit : Bool → Bool → World → Reply → Request → Option Exit
user_exit there unlinks w garbage req =
    let run = run_request w garbage req in at_exit there unlinks w run.path_is_set run.status

exit_handler-removes :
    (status : Option ℤ) (set there fifo : Bool)
    → exit_handler set true (record { status = status; fifo = if set then fifo else there })
      ≡ record { status = status; fifo = if set then false else there }
unfolding exit_handler
exit_handler-removes status true there true = refl
exit_handler-removes status true there false = refl
exit_handler-removes status false there fifo = refl

-- The path is set if and only if the server is reached.
path_is_set-reached :
    (w : World) (garbage : Reply) (req : Request)
    → (run_request w garbage req).path_is_set ≡ w.server_fifo_is_open
unfolding run_request
path_is_set-reached w garbage req = ground arith

-- If unlink succeeds, a client that ends with a code does so behind its handler too; the file with the
-- name of its FIFO is gone, whether the client has created it or it was there before, unless the server
-- could not be reached, where the client leaves it as it was.
pub user_exit-cleans :
    (there : Bool) (w : World) (garbage : Reply) (req : Request) (code : ℤ)
    → (run_request w garbage req).status ≡ some code
    → user_exit there true w garbage req
      ≡ some (record { status = some code; fifo = if w.server_fifo_is_open then false else there })
unfolding user_exit
user_exit-cleans there w garbage req code h =
    ap (at_exit there true w (run_request w garbage req).path_is_set) h
    ∙ ap (λ set. at_exit there true w set (some code)) (path_is_set-reached w garbage req)
    ∙ ap some
        (exit_handler-removes (some code) w.server_fifo_is_open there (is_left w.mkfifo there))
