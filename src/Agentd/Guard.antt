-- ===== src/Agentd/Guard.antt =====
-- internal/agentd/tools/tools.go: the guard on the paths of the file tools.
-- A path is what filepath.Clean makes of it: whether it is rooted, and its parts. The file system is
-- the parameter `lstat`, on the parts of an absolute path.
pub mod Cleaned
pub mod Confined
use text.Mathlib.Text.{starts_with}
use virmux.Prelude.{
  if◌then◌else◌, Result, ok, err, String, Bool, true, false, not, ◌&&◌, ◌||◌, Option, none, some,
  List, [], ◌∷◌, ◌++◌, str_eq, is_nil, is_blank, split_slash,
}

pub record CleanPath : Type 0 where
  pub rooted : Bool
  pub parts : List String

pub data FileKind : Type 0 where
  regular directory symlink special : FileKind

-- os.Lstat: `os.ErrNotExist`, another error, or the mode.
pub data Stat : Type 0 where
  missing : Stat
  lstat_failed : String → Stat
  found : FileKind → Stat

pub data GuardError : Type 0 where
  path_empty empty_host_root non_absolute : GuardError
  path_denied : List String → GuardError
  symlink_component non_directory_component not_exist : List String → GuardError
  lstat_error : String → GuardError

-- `..` in filepath.Clean, on the parts before it, the last one first.
pub back : Bool → List String → List String
back true [] = []
back false [] = ".." ∷ []
back true (p ∷ out) = out
back false (p ∷ out) = if str_eq p ".." then ".." ∷ p ∷ out else out

pub clean_part : Bool → List String → String → List String
unfolding back
clean_part rooted out seg =
    if str_eq seg "" || str_eq seg "."
    then out
    else if str_eq seg ".."
    then back rooted out
    else seg ∷ out

pub rev_onto : List String → List String → List String
rev_onto [] acc = acc
rev_onto (x ∷ xs) acc = rev_onto xs (x ∷ acc)

pub clean_parts : Bool → List String → List String → List String
unfolding clean_part rev_onto
clean_parts rooted out [] = rev_onto out []
clean_parts rooted out (seg ∷ segs) = clean_parts rooted (clean_part rooted out seg) segs

-- filepath.Clean
unfoldable pub clean : String → CleanPath
unfolding clean_parts
clean s =
    let r = starts_with s "/" in record { rooted = r; parts = clean_parts r [] (split_slash s) }

-- `clean`, and filepath.Join("/data", clean) where it is not absolute.
unfoldable pub under_data : String → List String
unfolding clean
under_data p =
    if (clean p).rooted then (clean p).parts else clean_parts true [] ("data" ∷ (clean p).parts)

-- filepath.Rel where the target is the root, or has the root and a separator as its prefix.
pub strip : List String → List String → Option (List String)
strip [] target = some target
strip (r ∷ root) [] = none
strip (r ∷ root) (t ∷ target) = if str_eq r t then strip root target else none

-- Below "/" itself nothing has the prefix, which would be "//".
pub strip_root : List String → List String → Option (List String)
unfolding strip
strip_root [] [] = some []
strip_root [] (t ∷ target) = none
strip_root (r ∷ root) target = strip (r ∷ root) target

abbrev pub is_symlink : FileKind → Bool
is_symlink symlink = true
is_symlink _ = false

abbrev pub is_dir : FileKind → Bool
is_dir directory = true
is_dir _ = false

-- What the loop makes of one part, at `path`: `walked` is the rest of the loop.
judge_part : Bool → List String → Bool → Option GuardError → Stat → Option GuardError
judge_part allow_create path is_last walked missing =
    if allow_create then none else some (not_exist path)
judge_part allow_create path is_last walked (lstat_failed e) = some (lstat_error e)
judge_part allow_create path is_last walked (found k) =
    if is_symlink k
    then some (symlink_component path)
    else if not is_last && not (is_dir k)
    then some (non_directory_component path)
    else walked

judge_root : List String → Stat → Option GuardError
judge_root path missing = none
judge_root path (lstat_failed e) = some (lstat_error e)
judge_root path (found k) = if is_symlink k then some (symlink_component path) else none

module _ (lstat : List String → Stat) where
  deny_if_symlink : List String → Option GuardError
  unfolding judge_root
  deny_if_symlink path = judge_root path (lstat path)

  -- The loop over the parts behind the root, none of which is "..".
  walk : Bool → List String → List String → Option GuardError
  unfolding judge_part
  walk allow_create cur [] = none
  walk allow_create cur (part ∷ rest) =
      let skipped = walk allow_create cur rest in
      let at : List String = cur ++ part ∷ [] in
      let walked = walk allow_create at rest in
      if str_eq part "" || str_eq part "."
      then skipped
      else judge_part allow_create at (is_nil rest) walked (lstat at)

  deny_symlink_components : CleanPath → CleanPath → Bool → Option GuardError
  unfolding deny_if_symlink walk strip_root
  deny_symlink_components root target allow_create =
      if not (root.rooted && target.rooted)
      then some non_absolute
      else elim (strip_root root.parts target.parts) [
        | none ↦ some (path_denied target.parts)
        | some rel ↦ elim (deny_if_symlink root.parts) [
          | some e ↦ some e
          | none ↦ walk allow_create root.parts rel
        ]
      ]

  -- The branches behind the test of the prefix "/data".
  guard_below : CleanPath → List String → Bool → Result GuardError (List String)
  unfolding deny_symlink_components
  guard_below root rest allow_create =
      let host : CleanPath = record {
        rooted = root.rooted;
        parts = clean_parts root.rooted [] (root.parts ++ rest);
      } in
      elim (deny_symlink_components root host allow_create) [
        | some e ↦ err e
        | none ↦ ok host.parts
      ]

  guard_parts : CleanPath → List String → Bool → Result GuardError (List String)
  unfolding guard_below
  guard_parts root [] allow_create = err (path_denied [])
  guard_parts root (top ∷ rest) allow_create =
      if str_eq top "data"
      then guard_below root rest allow_create
      else err (path_denied (top ∷ rest))

  unfoldable pub guard_data_path_with_root :
      String → String → Bool → Result GuardError (List String)
  unfolding guard_parts under_data
  guard_data_path_with_root p host_root allow_create =
      if is_blank p
      then err path_empty
      else if is_blank host_root
      then err empty_host_root
      else guard_parts (clean host_root) (under_data p) allow_create

  unfoldable pub guard_data_path : String → Bool → Result GuardError (List String)
  unfolding guard_data_path_with_root
  guard_data_path p allow_create = guard_data_path_with_root p "/dev/virmux-data" allow_create
