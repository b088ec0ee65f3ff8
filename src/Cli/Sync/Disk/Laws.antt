-- ===== src/Cli/Sync/Disk/Laws.antt =====
-- What the operations on an environment's directory leave in it, and in the other one.
use nanny.Prelude.{String, true, List, ◌≡◌, refl, if_rule}
use nanny.Cli.Sync.{Environment, live, sandbox, other}
use nanny.Cli.Sync.Disk.{
  SpoolFile, Disk, Faults, files_of, with_files, say, without_file, remove_file, put_file,
  rename_file,
}

pub files_of-with_files :
    (env : Environment) (files : List SpoolFile) (disk : Disk)
    → files_of env (with_files env files disk) ≡ files
files_of-with_files live files disk = refl
files_of-with_files sandbox files disk = refl

pub files_of-say :
    (env : Environment) (line : String) (disk : Disk)
    → files_of env (say line disk) ≡ files_of env disk
files_of-say live line disk = refl
files_of-say sandbox line disk = refl

pub files_of-other :
    (env : Environment) (files : List SpoolFile) (disk : Disk)
    → files_of (other env) (with_files env files disk) ≡ files_of (other env) disk
unfolding other
files_of-other live files disk = refl
files_of-other sandbox files disk = refl

pub files_of-remove_file :
    (fs : Faults) (env : Environment) (name : String) (disk : Disk)
    → fs.removes name ≡ true
    → files_of env (remove_file fs env name disk) ≡ without_file name (files_of env disk)
files_of-remove_file fs env name disk h =
    rw h (files_of-with_files env (without_file name (files_of env disk)) disk)

pub other-remove_file :
    (fs : Faults) (env : Environment) (name : String) (disk : Disk)
    → files_of (other env) (remove_file fs env name disk) ≡ files_of (other env) disk
other-remove_file fs env name disk =
    if_rule (λ d. files_of (other env) d ≡ files_of (other env) disk) (fs.removes name) _ _
      (files_of-other env (without_file name (files_of env disk)) disk) refl

pub other-put_file :
    (env : Environment) (f : SpoolFile) (disk : Disk)
    → files_of (other env) (put_file env f disk) ≡ files_of (other env) disk
other-put_file env f disk = files_of-other env _ disk

pub other-rename_file :
    (fs : Faults) (env : Environment) (old new : String) (disk : Disk)
    → files_of (other env) (rename_file fs env old new disk) ≡ files_of (other env) disk
other-rename_file fs env old new disk =
    if_rule (λ d. files_of (other env) d ≡ files_of (other env) disk) (fs.renames old) _ _
      (files_of-other env _ disk) refl
