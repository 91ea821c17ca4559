-- ===== src/Forensic/Tests.antt =====
-- The helpers of the file analyser at concrete commands.
use feup_sope.Base.{◌≡◌, refl, true, false, none, some, [], ◌∷◌}
use feup_sope.Base.Text.{codes, tokens, strcmp_eq}
use feup_sope.Base.Format.{print_dec}
use feup_sope.Forensic.{HashMode, Options, parse_arguments, read_modes, convert_timespec_to_string}
use feup_sope.Forensic.Hashes.{no_mode, read_modes_lem}

abbrev no_options : Options
no_options = record {
  hashmode = no_mode;
  o_command = none;
  r_command = false;
  v_command = false;
  mac_mode = false;
  removed = [];
}

test_command :
    parse_arguments
      (codes "-r" ∷ codes "-h" ∷ codes "md5,sha1" ∷ codes "-o" ∷ codes "out" ∷ codes "dir" ∷ [])
      no_options
    ≡ some (record {
      hashmode = record { md5 = true; sha1 = true; sha256 = false };
      o_command = some (codes "out");
      r_command = true;
      v_command = false;
      mac_mode = false;
      removed = codes "out" ∷ [];
    })
unfolding parse_arguments tokens strcmp_eq
test_command = refl

-- January is month 0.
test_time :
    convert_timespec_to_string
      (record { year = 120; mon = 0; mday = 31; hour = 9; min = 5; sec = 0 })
    ≡ codes "2020-0-31T9:5:0"
unfolding convert_timespec_to_string print_dec
test_time = refl

abbrev md5_mode : HashMode
md5_mode = record { md5 = true; sha1 = false; sha256 = false }

-- A word that is no hash function is passed over behind an earlier "-h" with one that is.
read_modes_lem_example :
    read_modes (codes "sha512" ∷ codes "sha1" ∷ []) md5_mode
    ≡ some (record { md5 = true; sha1 = true; sha256 = false })
unfolding strcmp_eq
read_modes_lem_example = read_modes_lem (codes "sha512") (codes "sha1" ∷ []) md5_mode
