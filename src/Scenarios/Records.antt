-- ===== src/Scenarios/Records.antt =====
-- A record that is saved in a directory that is a list of files.
use husk.Base.{◌≡◌, ◌≢◌, ◌∙◌, sym, refl, Option, none, some, [], ◌∷◌, arith}
use husk.Base.Bytes.{Str, codes, str_eq, str_eq_refl}
use husk.Base.Int.{pos}
use husk.Base.Outcome.{Outcome, ok}
use husk.Base.Action.{Errno}
use husk.Runtime.{running}
use husk.State.{StateFs, State, save, with_version}
use husk.State.Atomic.{LawfulFs, IsSound, save-atomic}
use husk.Scenarios.Leases.{Dir, look, without, other_name, look-without-other}

abbrev target : Str
target = codes "state.json"

abbrev tmp : Str
tmp = codes ".state-1.json"

abbrev moved : Str → Dir → Option Str → Option Errno × Dir
moved m d none = (some Errno.enoent, d)
moved m d (some s) = (none, (m, s) ∷ d)

abbrev disk : StateFs Dir
disk = record {
  mkdir_all = λ d n. (none, d);
  mkdir = λ d n. (none, d);
  mkfifo = λ d n. (none, d);
  create_temp = λ d dir. (ok tmp, (tmp, []) ∷ d);
  write = λ d n s. (none, (n, s) ∷ d);
  sync = λ d n. (none, d);
  close = λ d n. (none, d);
  rename = λ d n m. moved m d (look d n);
  remove = λ d n. (none, without n d);
}

tmp-differs : target ≢ tmp
tmp-differs e = ground arith

disk-LawfulFs : LawfulFs disk look target
unfolding str_eq
disk-LawfulFs = record {
  temp_name = λ d dir t e. let same : tmp ≡ t = cc in λ p. tmp-differs (p ∙ sym same);
  temp_empty = λ d dir t e. let same : tmp ≡ t = cc in rw (sym same) refl;
  temp_keeps = λ d dir. refl;
  write_ok = λ d n s e f. ground (arith, str_eq_refl n);
  write_keeps = λ d n s m ne. ground (arith, other_name n m ne);
  sync_keeps = λ d n m. refl;
  close_keeps = λ d n m. refl;
  rename_ok = λ d n m e. ground (arith, str_eq_refl m);
  rename_err = λ d n m x e. ground arith;
  remove_keeps = λ d n m ne. look-without-other d n m ne;
}

abbrev before : State (Unit {0})
before = record {
  oci_version = [];
  id = codes "c1";
  status = running;
  pid = pos 7;
  bundle = [];
  annotations = [];
  created_at = [];
  config = none;
  image = [];
  layers = [];
  cgroup_dir = [];
  exit_code = pos 0;
}

abbrev disk_before : Dir
disk_before = (target, codes "old") ∷ []

abbrev marshal : State (Unit {0}) → Outcome Errno Str
marshal st = ok st.oci_version

save-atomic_example :
    IsSound disk look target disk-LawfulFs
      (look disk_before target)
      (codes "1.2.0")
      disk_before
      (save disk marshal (codes "/run/husk/c1") target before disk_before)
unfolding with_version str_eq
save-atomic_example =
    save-atomic disk marshal look target disk-LawfulFs (codes "/run/husk/c1") before disk_before
      (codes "1.2.0") refl
