-- ===== src/Repository/Filesystem/Actions.antt =====
-- internal/repository/filesystem.go: steps that may fail and keep what they have changed, the names
-- of new files, and the reading and writing of JSON files.
use go_tartuffe.Prelude.{ℕ, ◌++◌, ◌∷◌, Text, none, some, decimal_text}
use go_tartuffe.Models.Stub.{increment_64}
use go_tartuffe.Repository.Filesystem.{Codec, Host, Filesystem, counter_text, tmp_suffix}
use go_tartuffe.Repository.Filesystem.Disk.{
  Node, FilePath, Failure, broken, Outcome, done, failed, dir, no_entries, read_file, mkdir_all,
  in_directory, write_entry, move_entry,
}

abbrev pub Action {ℓ} : Type ℓ → Type ℓ
Action A = Filesystem → Outcome A × Filesystem

-- The step after this result, unless it is an error.
abbrev pub then_run {ℓ κ} :
    {A : Type ℓ} {B : Type κ} → (A → Action B) → Outcome A × Filesystem → Outcome B × Filesystem
then_run k (done a, fs) = k a fs
then_run k (failed e, fs) = (failed e, fs)

infixl 5 ◌>>=◌ ◌>>◌
abbrev pub ◌>>=◌ {ℓ κ} : {A : Type ℓ} {B : Type κ} → Action A → (A → Action B) → Action B
(m >>= k) fs = then_run k (m fs)

abbrev pub ◌>>◌ {ℓ} : {B : Type ℓ} → Action (Unit {0}) → Action B → Action B
m >> k = m >>= λ _. k

abbrev pub give {ℓ} : {A : Type ℓ} → A → Action A
give a fs = (done a, fs)

abbrev pub fail {ℓ} : {A : Type ℓ} → Failure → Action A
fail e fs = (failed e, fs)

abbrev pub settled : Filesystem → Outcome Node → Outcome (Unit {0}) × Filesystem
settled fs (done disk) = (done tt, record fs { disk = disk })
settled fs (failed e) = (failed e, fs)

-- A call that changes the disk, or fails.
unfoldable pub on_disk : (Node → Outcome Node) → Action (Unit {0})
on_disk call fs = settled fs (call fs.disk)

-- A call that changes the disk, whose error the source drops.
unfoldable pub ignoring : (Node → Outcome Node) → Action (Unit {0})
ignoring call fs = elim (call fs.disk) [
  | done disk ↦ (done tt, record fs { disk = disk })
  | failed e ↦ (done tt, fs)
]

-- The name for the counter that AddInt64 gave.
unfoldable pub name_at : Host → ℕ → Text
unfolding counter_text
name_at host c =
    decimal_text (host.epoch c) ++ b'-' ∷ (decimal_text host.pid ++ b'-' ∷ counter_text c)

-- filenameFor
unfoldable pub filename_for : Host → Action Text
unfolding increment_64 name_at
filename_for host fs =
    (done (name_at host (increment_64 fs.counter)), record fs { counter = increment_64 fs.counter })

-- NewFilesystem, on an empty disk
unfoldable pub new_filesystem : FilePath → Outcome Node
unfolding mkdir_all
new_filesystem datadir = mkdir_all datadir (dir no_entries)

module _ {A : Type 0} (codec : Codec A) where
  -- readJSON
  unfoldable pub read_json : FilePath → Node → Outcome A
  unfolding read_file
  read_json path disk = elim (read_file path disk) [
    | failed e ↦ failed e
    | done t ↦ elim (codec.unmarshal t) [ none ↦ failed broken | some a ↦ done a ]
  ]

  unfoldable pub marshalled : A → Action Text
  marshalled a fs = elim (codec.marshal a) [ none ↦ (failed broken, fs) | some t ↦ (done t, fs) ]

  -- writeJSON of the file with this name in this directory
  unfoldable pub write_json : FilePath → Text → A → Action (Unit {0})
  unfolding on_disk marshalled
  write_json path name a = do
    on_disk (mkdir_all path)
    t ← marshalled a
    on_disk (in_directory path (write_entry (name ++ tmp_suffix) t))
    on_disk (in_directory path (move_entry (name ++ tmp_suffix) name))
