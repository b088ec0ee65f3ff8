-- ===== src/Cli/Sync/Disk.antt =====
-- What crates/cli/src/sync.rs uses of `std::fs`, for the directory of each environment's outbox: the
-- files in it, and what the program prints. Every operation may fail.
pub mod Laws
use Prim.Native.String.{len}
use nanny.Prelude.{
  ℕ, String, Bool, true, Option, none, some, List, [], ◌∷◌, ◌==◌, ◌≡◌, refl, push, string_eq,
  if◌then◌else◌, rsplit_once, is_empty,
}
use nanny.Cli.Sync.{Environment, live, sandbox}

-- A file: its name, its size if the metadata can be read, and its text, if it can be read as one.
pub record SpoolFile : Type 0 where
  pub name : String
  pub size : Option ℕ
  pub contents : Option String

pub record Disk : Type 0 where
  pub of_live : List SpoolFile
  pub of_sandbox : List SpoolFile
  pub gitignore : Option String
  pub said : List String

-- What writing a file comes to: all of it, or an error and what is left.
pub data Written : Type 0 where
  whole : Written
  failed : (left : Option String) → Written

-- Which operations succeed.
pub record Faults : Type 0 where
  pub creates : Bool
  pub lists : Bool
  pub removes : String → Bool
  pub writes : String → Written
  pub renames : String → Bool
  pub ignores : Bool

abbrev pub files_of : Environment → Disk → List SpoolFile
files_of live disk = disk.of_live
files_of sandbox disk = disk.of_sandbox

abbrev pub with_files : Environment → List SpoolFile → Disk → Disk
with_files live files disk = record disk { of_live = files }
with_files sandbox files disk = record disk { of_sandbox = files }

-- `eprintln!`
abbrev pub say : String → Disk → Disk
say line disk = record disk { said = push disk.said line }

abbrev pub without_file : String → List SpoolFile → List SpoolFile
without_file name [] = []
without_file name (f ∷ files) =
    let rest = without_file name files in if f.name == name then rest else f ∷ rest

abbrev pub find_file : String → List SpoolFile → Option SpoolFile
find_file name [] = none
find_file name (f ∷ files) = if f.name == name then some f else find_file name files

abbrev pub read_contents : Option SpoolFile → Option String
read_contents none = none
read_contents (some f) = f.contents

-- `read_to_string`
abbrev pub read_to_string : Environment → String → Disk → Option String
read_to_string env name disk = read_contents (find_file name (files_of env disk))

-- `remove_file`
abbrev pub remove_file : Faults → Environment → String → Disk → Disk
remove_file fs env name disk =
    if fs.removes name then with_files env (without_file name (files_of env disk)) disk else disk

abbrev pub text_file : String → String → SpoolFile
text_file name contents = record {
  name = name;
  size = some (len contents);
  contents = some contents;
}

abbrev pub put_file : Environment → SpoolFile → Disk → Disk
put_file env f disk = with_files env (push (without_file f.name (files_of env disk)) f) disk

abbrev pub renamed : String → String → List SpoolFile → List SpoolFile
renamed old new [] = []
renamed old new (f ∷ files) =
    let rest = renamed old new files in
    if f.name == old then record f { name = new } ∷ rest else f ∷ rest

-- `rename`, which replaces a file of the new name.
abbrev pub rename_file : Faults → Environment → String → String → Disk → Disk
rename_file fs env old new disk =
    if fs.renames old
    then with_files env (renamed old new (without_file new (files_of env disk))) disk
    else disk

abbrev after_dot : Option (String × String) → Option String
after_dot none = none
after_dot (some (stem, ext)) = if is_empty stem then none else some ext

-- `Path::extension`, of a file's name
unfoldable pub extension : String → Option String
extension name = after_dot (rsplit_once 46 name)
