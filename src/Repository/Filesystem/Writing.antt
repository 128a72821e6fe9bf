-- ===== src/Repository/Filesystem/Writing.antt =====
-- internal/repository/filesystem.go: writeJSON in a directory that stands.
use go_tartuffe.Prelude.{ℕ, Text, text_eq, text_eq_refl, false, [], ◌∷◌, ◌++◌, some, ◌≡◌, refl, ◌∙◌}
use go_tartuffe.Repository.Filesystem.{Codec, tmp_suffix}
use go_tartuffe.Repository.Filesystem.Disk.{
  Node, file, dir, Entries, FilePath, Outcome, done, lookup_entry, set_entry, find_node, mkdir_all,
  in_directory, write_entry, move_entry,
}
use go_tartuffe.Repository.Filesystem.Disk.Entry.{
  IsWritable, saved, write_entry-ok, move_entry-ok, lookup-saved,
}
use go_tartuffe.Repository.Filesystem.Disk.Graft.{graft, sub, IsClear, find-graft}
use go_tartuffe.Repository.Filesystem.Actions.{on_disk, write_json, read_json}
use go_tartuffe.Repository.Filesystem.Below.{write_json-below}
use go_tartuffe.Repository.Filesystem.Saved.{ReadsBack, on, marshalled-ok}
use go_tartuffe.Repository.Filesystem.Loaded.{read_json-ok, find_entry}

change_root :
    (change : Entries → Outcome Entries) (es es' : Entries) (c : ℕ)
    → change es ≡ done es'
    → on_disk (in_directory [] change) (on (dir es) c) ≡ (done tt, on (dir es') c)
unfolding on_disk in_directory
change_root change es es' c e = rw e refl

module _ {A : Type 0} (codec : Codec A) (name : Text) (a : A) where
  write_json-root :
      (es : Entries) (c : ℕ) (t : Text)
      → IsWritable name es
      → IsWritable (name ++ tmp_suffix) es
      → codec.marshal a ≡ some t
      → write_json codec [] name a (on (dir es) c)
        ≡ (done tt, on (dir (saved (name ++ tmp_suffix) name t es)) c)
  unfolding write_json on_disk mkdir_all
  write_json-root es c t w w' m =
      rw
        (
          marshalled-ok codec a t (on (dir es) c) m,
          change_root (write_entry (name ++ tmp_suffix) t) es
              (set_entry (name ++ tmp_suffix) (file t) es) c
              (write_entry-ok (name ++ tmp_suffix) t es w'),
        )
        (change_root (move_entry (name ++ tmp_suffix) name)
          (set_entry (name ++ tmp_suffix) (file t) es) (saved (name ++ tmp_suffix) name t es) c
          (move_entry-ok (name ++ tmp_suffix) name t es w))

  module _ (p : FilePath) (disk : Node) (es : Entries) (clear : IsClear p disk)
      (here : sub p disk ≡ dir es) where
    -- The file is written and read back, and nothing else below the directory changes but the
    -- temporary file.
    pub write_json-ok :
        (c : ℕ)
        → IsWritable name es
        → IsWritable (name ++ tmp_suffix) es
        → text_eq (name ++ tmp_suffix) name ≡ false
        → ReadsBack codec a
        → (t : Text) × (write_json codec p name a (on disk c)
            ≡ (done tt, on (graft p (dir (saved (name ++ tmp_suffix) name t es)) disk) c))
          × (read_json codec
                (p ++ name ∷ [])
                (graft p (dir (saved (name ++ tmp_suffix) name t es)) disk)
              ≡ done a)
    write_json-ok c w w' differ (t, m, u) = (
      t,
      rw (write_json-below p disk clear codec name a es c here, write_json-root es c t w w' m) refl,
      read_json-ok codec (p ++ name ∷ [])
          (graft p (dir (saved (name ++ tmp_suffix) name t es)) disk) t a
          (find-graft p (name ∷ []) (dir (saved (name ++ tmp_suffix) name t es)) disk clear
            ∙ find_entry (saved (name ++ tmp_suffix) name t es) t name (
                rw (lookup-saved (name ++ tmp_suffix) name t name es differ, text_eq_refl name)
                  refl))
          u,
    )

find_same :
    (m : Text) (q : FilePath) (es fs : Entries)
    → lookup_entry m es ≡ lookup_entry m fs
    → find_node (m ∷ q) (dir es) ≡ find_node (m ∷ q) (dir fs)
unfolding find_node
find_same m q es fs h = rw (find_node, h) refl

-- What stands under another name stays.
pub find-other :
    (name t : Text) (p : FilePath) (disk : Node) (es : Entries)
    → IsClear p disk
    → (m : Text) (q : FilePath) → text_eq name m ≡ false
    → text_eq (name ++ tmp_suffix) m ≡ false
    → find_node (p ++ m ∷ q) (graft p (dir (saved (name ++ tmp_suffix) name t es)) disk)
      ≡ find_node (m ∷ q) (dir es)
find-other name t p disk es clear m q h h' =
    find-graft p (m ∷ q) (dir (saved (name ++ tmp_suffix) name t es)) disk clear
    ∙ find_same m q (saved (name ++ tmp_suffix) name t es) es
        (rw (lookup-saved (name ++ tmp_suffix) name t m es h', h) refl)
