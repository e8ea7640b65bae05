-- ===== src/Scenarios/Images.antt =====
-- Runs of internal/storage on a kernel whose files hold what was written to them.
use husk.Base.{
  String, ◌≡◌, ◌⊎◌, refl, true, false, none, List, [], ◌∷◌, ◌++◌, any, arith, if◌then◌else◌,
}
use husk.Base.Bytes.{Str, codes, str_eq, str_eq_refl, has_prefix}
use husk.Base.Outcome.{Outcome, ok, err}
use husk.Base.Action.{message, Errno, enoent, Error}
use husk.Kernel.{Kernel, Call, write_file}
use husk.Base.Paths.{reversed, clean, join, walk, enter}
use husk.Base.Split.{split, join_with}
use husk.Kernel.Only.{Extends}
use husk.Storage.Import.{
  TypeFlag, type_dir, type_reg, type_link, type_symlink, Header, place, extract_tar,
}
use husk.Storage.Import.Confined.{Confined, extract_tar-Confined}
use husk.Storage.{safe_join, put_image, overlay_options, has_delimiter}
use husk.Storage.Layers.{ReadsAs, overlay_options_topmost_first}

abbrev pub file_after : Str → Call → Outcome Errno Str → Outcome Errno Str
file_after path (write_file p text) found = if str_eq p path then ok text else found
file_after path _ found = found

abbrev pub contents : Str → Outcome Errno Str → List Call → Outcome Errno Str
contents path found [] = found
contents path found (c ∷ log) = contents path (file_after path c found) log

pub contents-append :
    (path : Str) (found : Outcome Errno Str) (log : List Call) (text : Str)
    → contents path found (log ++ write_file path text ∷ []) ≡ ok text
contents-append path found [] text = ground (arith, str_eq_refl path)
contents-append path found (c ∷ log) text = contents-append path (file_after path c found) log text

abbrev pub kernel : Kernel
kernel = record {
  act = λ log c. none;
  read = λ log path. contents path (err enoent) log;
  stat = λ log path. ok true;
  is_cgroup2 = λ log path. true;
  native_arch = 62;
  sys_nr = λ name. 0;
  cap_nr = λ name. 0;
  range = λ keys. keys;
}

abbrev layers : List Str
layers = codes "l1" ∷ codes "l2" ∷ []

abbrev recorded : List Call
recorded = (put_image (codes "/r") (codes "base") layers kernel []).1

overlay_options_topmost_first_example :
    ((any has_delimiter layers ≡ true)
      × ((e : Error) × (overlay_options layers (codes "u") (codes "w") ≡ err e)))
    ⊎ ((any has_delimiter layers ≡ false)
        × ((text : Str) × (overlay_options layers (codes "u") (codes "w") ≡ ok text)
            × ReadsAs text
                (reversed layers [])
                (codes "upperdir=" ++ (codes "u" ++ (codes ",workdir=" ++ codes "w")))))
overlay_options_topmost_first_example =
    overlay_options_topmost_first (codes "l1") (codes "l2" ∷ []) (codes "u") (codes "w")

-- A directory, a file in it, a hard link to the file, and an entry that is refused.
abbrev header : String → TypeFlag → String → Header
header name flag target = record {
  name = codes name;
  typeflag = flag;
  linkname = codes target;
  perm = 420;
  mode = 420;
  dev_major = 0;
  dev_minor = 0;
  uid = 0;
  gid = 0;
}

abbrev archive : List (Outcome Error Header)
archive =
    ok (header "bin/" type_dir "")
    ∷ ok (header "bin/sh" type_reg "")
    ∷ ok (header "sh" type_link "bin/sh")
    ∷ ok (header "../x" type_symlink "/")
    ∷ []

extract_tar_stops :
    (extract_tar (codes "/l/1") archive kernel []).0
    ≡ err (message "archive entry escapes the extraction directory")
unfolding extract_tar place safe_join join clean split walk enter join_with str_eq has_prefix
extract_tar_stops = refl

extract_tar-Confined_example :
    Extends
      (Confined (clean (codes "/l/1")))
      kernel
      []
      (extract_tar (codes "/l/1") archive kernel []).1
extract_tar-Confined_example = extract_tar-Confined kernel (codes "/l/1") refl archive []
