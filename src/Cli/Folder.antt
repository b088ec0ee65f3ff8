-- ===== src/Cli/Folder.antt =====
-- What the commands use of `std::fs` in one directory: the files in it by name, with the permissions
-- that the commands set. Every operation may fail. Each file is a text.
pub mod Laws
use nanny.Prelude.{
  String, Bool, true, false, Option, none, some, ◌&&◌, List, [], ◌∷◌, if◌then◌else◌,
}
use nanny.Prelude.Dict.{Dict, get, insert, remove_key, is_some}
use nanny.Prelude.Exec.{Exec}
use nanny.Prelude.{Result, ok, err}

-- A file, and whether its mode is 0600.
pub record Stored : Type 0 where
  pub text : String
  pub owner_only : Bool

pub record Folder : Type 0 where
  pub is_there : Bool
  pub files : Dict Stored

-- What writing a file comes to: all of it, or an error and what is left.
pub data Written : Type 0 where
  whole : Written
  failed : (left : Option String) → Written

-- Which operations succeed on which file.
pub record Access : Type 0 where
  pub creates : Bool
  pub reads : String → Bool
  pub writes : String → Written
  pub renames : String → Bool
  pub restricts : String → Bool
  pub removes : String → Bool
  pub removes_dir : Bool

-- The operation that failed, with the file.
pub data IoError : Type 0 where
  failed_to_create : IoError
  failed_to_read failed_to_write failed_to_finalise failed_to_restrict failed_to_remove :
      String → IoError

abbrev pub find : String → Folder → Option Stored
find name folder = get name folder.files

-- `dir.join(name).exists()`
abbrev pub exists : String → Folder → Bool
exists name folder = is_some (find name folder)

abbrev pub stored_text : Option Stored → Option String
stored_text none = none
stored_text (some f) = some f.text

-- The text of a file.
abbrev pub contents : String → Folder → Option String
contents name folder = stored_text (find name folder)

abbrev pub is_owner_only : Option Stored → Bool
is_owner_only none = false
is_owner_only (some f) = f.owner_only

-- A file that is there keeps its mode.
abbrev pub put : String → String → Folder → Folder
put name text folder = record folder {
  files =
      insert name (record { text = text; owner_only = is_owner_only (find name folder) })
        folder.files;
}

abbrev pub put_left : String → Option String → Folder → Folder
put_left name none folder = folder
put_left name (some text) folder = put name text folder

abbrev pub move_to : String → Stored → String → Folder → Folder
move_to old f new folder = record folder { files = insert new f (remove_key old folder.files) }

module _ {E : Type 0} (access : Access) (on_error : IoError → E) where
  -- `create_dir_all`
  unfoldable pub create_dir_all : Exec Folder E (Unit {0})
  create_dir_all folder =
      if access.creates
      then (record folder { is_there = true }, ok tt)
      else (folder, err (on_error failed_to_create))

  abbrev pub read_as : String → Folder → Option Stored → Folder × Result E String
  read_as name folder none = (folder, err (on_error (failed_to_read name)))
  read_as name folder (some f) =
      if access.reads name
      then (folder, ok f.text)
      else (folder, err (on_error (failed_to_read name)))

  -- `read`, `read_to_string`
  unfoldable pub read : String → Exec Folder E String
  read name folder = read_as name folder (find name folder)

  abbrev pub write_as : String → String → Written → Folder → Folder × Result E (Unit {0})
  write_as name text whole folder = (put name text folder, ok tt)
  write_as name text (failed left) folder =
      (put_left name left folder, err (on_error (failed_to_write name)))

  -- `write`
  unfoldable pub write : String → String → Exec Folder E (Unit {0})
  write name text folder = write_as name text (access.writes name) folder

  abbrev pub rename_as : String → String → Folder → Option Stored → Folder × Result E (Unit {0})
  rename_as old new folder none = (folder, err (on_error (failed_to_finalise new)))
  rename_as old new folder (some f) =
      if access.renames old
      then (move_to old f new folder, ok tt)
      else (folder, err (on_error (failed_to_finalise new)))

  -- `rename`, which replaces a file of the new name.
  unfoldable pub rename : String → String → Exec Folder E (Unit {0})
  rename old new folder = rename_as old new folder (find old folder)

  abbrev pub restrict_as : String → Folder → Option Stored → Folder × Result E (Unit {0})
  restrict_as name folder none = (folder, err (on_error (failed_to_restrict name)))
  restrict_as name folder (some f) =
      if access.restricts name
      then (
        record folder { files = insert name (record f { owner_only = true }) folder.files },
        ok tt,
      )
      else (folder, err (on_error (failed_to_restrict name)))

  -- `set_permissions` to 0o600
  unfoldable pub restrict : String → Exec Folder E (Unit {0})
  restrict name folder = restrict_as name folder (find name folder)

  -- `remove_file`
  unfoldable pub remove_file : String → Exec Folder E (Unit {0})
  remove_file name folder =
      if exists name folder && access.removes name
      then (record folder { files = remove_key name folder.files }, ok tt)
      else (folder, err (on_error (failed_to_remove name)))

abbrev is_empty_folder : Dict Stored → Bool
is_empty_folder files = elim files [ [] ↦ true | _ ↦ false ]

-- `remove_dir`, of an empty directory.
unfoldable pub remove_dir : Access → Folder → Folder
remove_dir access folder =
    if is_empty_folder folder.files && access.removes_dir
    then record folder { is_there = false }
    else folder
