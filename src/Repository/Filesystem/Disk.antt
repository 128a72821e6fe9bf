-- ===== src/Repository/Filesystem/Disk.antt =====
-- internal/repository/filesystem.go: the directory tree below the data directory, and the functions
-- of the `os` package that the source calls. Paths are lists of names. A file holds its text; the
-- machine itself never fails, so an error comes from the shape of the tree.
pub mod Entry
pub mod Graft
use go_tartuffe.Prelude.{
  Text, text_eq, Bool, true, false, List, [], ◌∷◌, Option, none, some, if◌then◌else◌,
}
use go_tartuffe.Repository.{RepositoryError}

mutual
  pub data Node : Type 0 where
    file : Text → Node
    dir : Entries → Node

  pub data Entries : Type 0 where
    no_entries : Entries
    entry : Text → Node → Entries → Entries

abbrev pub FilePath : Type 0
FilePath = List Text

-- An error: one that os.IsNotExist recognises, another of the system or of JSON, or the
-- repository's own.
pub data Failure : Type 0 where
  not_exist : Failure
  broken : Failure
  repository : RepositoryError → Failure

-- A Go pair (value, error) of which one part is set.
pub data Outcome {ℓ} (A : Type ℓ) : Type ℓ where
  done : A → Outcome A
  failed : Failure → Outcome A

infixl 5 ◌>>=◌
abbrev pub ◌>>=◌ {ℓ κ} : {A : Type ℓ} {B : Type κ} → Outcome A → (A → Outcome B) → Outcome B
done a >>= f = f a
failed e >>= f = failed e

unfoldable pub lookup_entry : Text → Entries → Option Node
lookup_entry name no_entries = none
lookup_entry name (entry n node es) = if text_eq n name then some node else lookup_entry name es

unfoldable pub set_entry : Text → Node → Entries → Entries
set_entry name node no_entries = entry name node no_entries
set_entry name node (entry n old es) =
    if text_eq n name then entry name node es else entry n old (set_entry name node es)

unfoldable pub remove_entry : Text → Entries → Entries
remove_entry name no_entries = no_entries
remove_entry name (entry n node es) =
    let rest = remove_entry name es in if text_eq n name then rest else entry n node rest

-- os.Stat, with what stands at the path: a missing name is os.ErrNotExist, a name below a file not.
unfoldable pub find_node : FilePath → Node → Outcome Node
find_node [] node = done node
find_node (name ∷ path) (file t) = failed broken
find_node (name ∷ path) (dir es) = elim (lookup_entry name es) [
  | none ↦ failed not_exist
  | some node ↦ find_node path node
]

-- os.ReadFile
unfoldable pub read_file : FilePath → Node → Outcome Text
unfolding find_node
read_file path disk = elim (find_node path disk) [
  | failed e ↦ failed e
  | done (dir es) ↦ failed broken
  | done (file t) ↦ done t
]

-- What stands under a name in a directory, an empty directory if nothing does.
unfoldable pub child : Text → Entries → Node
child name es = elim (lookup_entry name es) [ none ↦ dir no_entries | some node ↦ node ]

-- os.MkdirAll
unfoldable pub mkdir_all : FilePath → Node → Outcome Node
mkdir_all path (file t) = failed broken
mkdir_all [] (dir es) = done (dir es)
mkdir_all (name ∷ path) (dir es) =
    mkdir_all path (child name es) >>= λ node. done (dir (set_entry name node es))

-- A change of the entries of a directory that stands.
unfoldable pub in_directory : FilePath → (Entries → Outcome Entries) → Node → Outcome Node
in_directory path change (file t) = failed broken
in_directory [] change (dir es) = change es >>= λ es'. done (dir es')
in_directory (name ∷ path) change (dir es) = elim (lookup_entry name es) [
  | none ↦ failed not_exist
  | some node ↦ in_directory path change node >>= λ node'. done (dir (set_entry name node' es))
]

-- os.WriteFile on a name of the directory
unfoldable pub write_entry : Text → Text → Entries → Outcome Entries
write_entry name t es = elim (lookup_entry name es) [
  | some (dir below) ↦ failed broken
  | _ ↦ done (set_entry name (file t) es)
]

-- os.Rename of a file within the directory
unfoldable pub move_entry : Text → Text → Entries → Outcome Entries
unfolding write_entry
move_entry from to es = elim (lookup_entry from es) [
  | none ↦ failed not_exist
  | some (dir below) ↦ failed broken
  | some (file t) ↦ write_entry to t (remove_entry from es)
]

-- os.RemoveAll of a name of the directory: no error where nothing stands.
unfoldable pub remove_all : FilePath → Text → Node → Outcome Node
unfolding in_directory
remove_all path name disk = elim (in_directory path (λ es. done (remove_entry name es)) disk) [
  | failed not_exist ↦ done disk
  | failed broken ↦ failed broken
  | failed (repository e) ↦ failed (repository e)
  | done disk' ↦ done disk'
]

abbrev pub names : Entries → List Text
names no_entries = []
names (entry name node es) = name ∷ names es

-- os.ReadDir, in the order of the directory
unfoldable pub read_dir : FilePath → Node → Outcome Entries
unfolding find_node
read_dir path disk = elim (find_node path disk) [
  | failed e ↦ failed e
  | done (file t) ↦ failed broken
  | done (dir es) ↦ done es
]
