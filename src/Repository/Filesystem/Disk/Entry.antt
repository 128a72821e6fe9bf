-- ===== src/Repository/Filesystem/Disk/Entry.antt =====
-- internal/repository/filesystem.go: the entries of one directory after a file has been written.
use go_tartuffe.Prelude.{
  Text, text_eq, text_eq_iff, text_eq_refl, false, some, none, if◌then◌else◌, ◌≡◌, refl, ◌≢◌, arith,
  Option-cases, inl, inr,
}
use go_tartuffe.Repository.Filesystem.Disk.{
  Node, file, dir, Entries, no_entries, entry, done, lookup_entry, set_entry, remove_entry,
  write_entry, move_entry,
}

pub lookup-set :
    (n m : Text) (x : Node) (es : Entries)
    → lookup_entry m (set_entry n x es) ≡ (if text_eq n m then some x else lookup_entry m es)
unfolding lookup_entry set_entry
lookup-set n m x no_entries = refl
lookup-set n m x (entry k y es) =
    ground (arith, text_eq_iff n m, text_eq_iff k n, text_eq_iff k m, lookup-set n m x es)

pub lookup-remove :
    (n m : Text) (es : Entries)
    → lookup_entry m (remove_entry n es) ≡ (if text_eq n m then none else lookup_entry m es)
unfolding lookup_entry remove_entry
lookup-remove n m no_entries = ground arith
lookup-remove n m (entry k y es) =
    ground (arith, text_eq_iff n m, text_eq_iff k n, text_eq_iff k m, lookup-remove n m es)

pub lookup-set_same :
    (n : Text) (x : Node) (es : Entries) → lookup_entry n (set_entry n x es) ≡ some x
lookup-set_same n x es = rw (lookup-set n n x es, text_eq_refl n) refl

pub set-set :
    (n : Text) (x y : Node) (es : Entries) → set_entry n x (set_entry n y es) ≡ set_entry n x es
unfolding set_entry
set-set n x y no_entries = rw (text_eq_refl n) refl
set-set n x y (entry k z es) = ground (arith, text_eq_refl n, set-set n x y es)

-- Only files stand in the directory.
abbrev pub AreFiles : Entries → Type 0
AreFiles es = (n : Text) (below : Entries) → lookup_entry n es ≢ some (dir below)

pub set-AreFiles : (n t : Text) (es : Entries) → AreFiles es → AreFiles (set_entry n (file t) es)
set-AreFiles n t es h m below e = ground (arith, lookup-set n m (file t) es, h m below, e)

pub remove-AreFiles : (n : Text) (es : Entries) → AreFiles es → AreFiles (remove_entry n es)
remove-AreFiles n es h m below e = ground (arith, lookup-remove n m es, h m below, e)

-- No directory bears the name.
abbrev pub IsWritable : Text → Entries → Type 0
IsWritable n es = (below : Entries) → lookup_entry n es ≢ some (dir below)

pub write_entry-ok :
    (n t : Text) (es : Entries)
    → IsWritable n es
    → write_entry n t es ≡ done (set_entry n (file t) es)
unfolding write_entry
write_entry-ok n t es h = elim (Option-cases (lookup_entry n es)) [
  | inl e ↦ rw (write_entry, e) refl
  | inr (file u, e) ↦ rw (write_entry, e) refl
  | inr (dir below, e) ↦ absurd (h below e)
]

-- What writeJSON leaves in the directory.
abbrev pub saved : Text → Text → Text → Entries → Entries
saved tmp n t es = set_entry n (file t) (remove_entry tmp (set_entry tmp (file t) es))

pub saved-AreFiles : (tmp n t : Text) (es : Entries) → AreFiles es → AreFiles (saved tmp n t es)
saved-AreFiles tmp n t es h =
    set-AreFiles n t (remove_entry tmp (set_entry tmp (file t) es))
      (remove-AreFiles tmp (set_entry tmp (file t) es) (set-AreFiles tmp t es h))

saved-IsWritable :
    (tmp n t : Text) (es : Entries)
    → IsWritable n es
    → IsWritable n (remove_entry tmp (set_entry tmp (file t) es))
saved-IsWritable tmp n t es h below e = ground (
  arith,
  lookup-remove tmp n (set_entry tmp (file t) es),
  lookup-set tmp n (file t) es,
  h below,
  e,
)

pub move_entry-ok :
    (tmp n t : Text) (es : Entries)
    → IsWritable n es
    → move_entry tmp n (set_entry tmp (file t) es) ≡ done (saved tmp n t es)
unfolding move_entry
move_entry-ok tmp n t es h =
    rw
      (
        move_entry,
        lookup-set_same tmp (file t) es,
        write_entry-ok n t (remove_entry tmp (set_entry tmp (file t) es))
            (saved-IsWritable tmp n t es h),
      )
      refl

-- The new file is there, and every other name is as it was, but for the temporary one.
pub lookup-saved :
    (tmp n t m : Text) (es : Entries)
    → text_eq tmp m ≡ false
    → lookup_entry m (saved tmp n t es) ≡ (if text_eq n m then some (file t) else lookup_entry m es)
lookup-saved tmp n t m es h =
    rw
      (
        lookup-set n m (file t) (remove_entry tmp (set_entry tmp (file t) es)),
        lookup-remove tmp m (set_entry tmp (file t) es),
        lookup-set tmp m (file t) es,
        h,
      )
      refl
