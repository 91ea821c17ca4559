-- ===== src/Forensic/Files/Overflow.antt =====
-- The arrays of `getAllHashModes` in Project1/forensic.c against what the tools print.
use feup_sope.Base.{
  ℕ, ◌≤◌, ◌≡◌, ◌≢◌, arith, Bool, true, false, some, [], ◌∷◌, length, Option-cases, inl, inr, refl,
  sym, ◌∙◌,
}
use feup_sope.Base.Result.{Result, ok, stop, out_of_bounds, Stop}
use feup_sope.Base.Text.{Bytes, codes}
use feup_sope.Base.Stdio.{fgets}
use feup_sope.Forensic.{Options, system_command}
use feup_sope.Forensic.Files.{
  Shell, first_line, execute_system_command, add_hash, get_all_hash_modes, choose, hash_size, ◌>>=◌,
  fit, add_md5, add_sha1, add_sha256,
}

-- The first line of what the command prints, its newline included, has 64 bytes or more.
pub record PrintsLong (shell : Shell) (command : Bytes) : Type 0 where
  pub text : Bytes
  pub printed : shell.popen command ≡ some text
  pub long : hash_size ≤ length (fgets 511 text).0

fit-overflow : (size : ℕ) (s : Bytes) → size ≤ length s → fit size s ≡ stop out_of_bounds
fit-overflow size s h = ground arith

first_line-overflow :
    (old text : Bytes)
    → hash_size ≤ length (fgets 511 text).0
    → first_line hash_size old text ≡ stop out_of_bounds
unfolding fgets
first_line-overflow old [] h = absurd (omega arith)
first_line-overflow old (c ∷ cs) h = rw (fit-overflow hash_size (fgets 511 (c ∷ cs)).0 h) refl

execute-overflow :
    (shell : Shell) (command path old : Bytes)
    → ((cmd : Bytes) → system_command command path ≡ some cmd → PrintsLong shell cmd)
    → execute_system_command shell hash_size command path old ≡ stop out_of_bounds
unfolding execute_system_command
execute-overflow shell command path old h = elim (Option-cases (system_command command path)) [
  | inl e ↦ ground arith
  | inr (cmd, e) ↦
      let long = h cmd e in
      ground (arith, long.printed, first_line-overflow old long.text long.long)
]

add_hash-overflow :
    (shell : Shell) (keep : Bytes → Bytes → Bytes) (asked : Bool) (command path result : Bytes)
    → asked ≡ true
    → execute_system_command shell hash_size command path shell.uninitialized ≡ stop out_of_bounds
    → add_hash shell keep asked command path result ≡ stop out_of_bounds
unfolding add_hash
add_hash-overflow shell keep true command path result h e = rw e refl
add_hash-overflow shell keep false command path result h e = absurd cc

stop-ne-ok : {B : Type 0} (why : Stop) (b : B) → stop why ≢ ok b
stop-ne-ok why b e = cc

>>=-ne-ok :
    {A B : Type 0} (m : Result A) (f : A → Result B)
    → ((a : A) (b : B) → f a ≢ ok b)
    → (b : B) → (m >>= f) ≢ ok b
>>=-ne-ok (ok a) f h b e = h a b e
>>=-ne-ok (stop why) f h b e = cc

-- With SHA256 asked for, and a tool for it whose first line has 64 bytes or more, getAllHashModes does
-- not end with a result, whichever other hash functions are asked for.
pub get_all_hash_modes-sha256 :
    (shell : Shell) (options : Options) (path result out : Bytes)
    → options.hashmode.sha256 ≡ true
    → ((cmd : Bytes)
        → system_command
            (choose options.mac_mode (codes "shasum -a 256 ") (codes "sha256sum "))
            path
          ≡ some cmd
        → PrintsLong shell cmd)
    → get_all_hash_modes shell options path result ≢ ok out
unfolding get_all_hash_modes
get_all_hash_modes-sha256 shell options path result out asked long h =
    let command = choose options.mac_mode (codes "shasum -a 256 ") (codes "sha256sum ") in
    let full = execute-overflow shell command path shell.uninitialized long in
    let keep = λ (striped line : Bytes). line in
    let never =
      λ (with_sha1 b : Bytes)
          (e : add_hash shell keep options.hashmode.sha256 command path with_sha1 ≡ ok b).
        let last =
          add_hash-overflow shell keep options.hashmode.sha256 command path with_sha1 asked full in
        stop-ne-ok out_of_bounds b (sym last ∙ e) in
    >>=-ne-ok (add_md5 shell options path result)
      (λ with_md5. add_sha1 shell options path with_md5 >>= add_sha256 shell options path)
      (λ with_md5.
        >>=-ne-ok (add_sha1 shell options path with_md5) (add_sha256 shell options path) never)
      out h
