-- ===== src/Repository/Filesystem/Header.antt =====
-- internal/repository/filesystem.go: the header of an imposter that is written, and what Get then reads.
use go_tartuffe.Prelude.{
  ℕ, ◌+◌, Text, text_eq, true, List, [], ◌∷◌, ◌++◌, length, some, ℤ, ◌≡◌, ◌≢◌, refl, sym, ap, ◌∙◌,
  arith, Option-cases, inl, inr,
}
use go_tartuffe.Models.Stub.{Stub}
use go_tartuffe.Repository.Filesystem.{
  Host, ImposterHeader, itoa, stubs_dir, stubs_name, imposter_dir, requests_dir, requests_name,
  imposter_json, tmp_suffix,
}
use go_tartuffe.Repository.Filesystem.Disk.{
  Node, file, dir, Entries, no_entries, FilePath, done, failed, not_exist, find_node, lookup_entry,
  child, read_dir,
}
use go_tartuffe.Repository.Filesystem.Disk.Entry.{IsWritable, saved}
use go_tartuffe.Repository.Filesystem.Disk.Graft.{
  graft, sub, IsClear, are_apart, find-apart, find-child, IsClear-prefix,
}
use go_tartuffe.Repository.Filesystem.Names.{itoa_differs}
use go_tartuffe.Repository.Filesystem.Actions.{read_json}
use go_tartuffe.Repository.Filesystem.Reading.{
  load_stubs, load_requests, requests_listed, requests_or_none, read_header,
}
use go_tartuffe.Repository.Filesystem.Frame.{AgreeBelow, load_stub-same}
use go_tartuffe.Repository.Filesystem.Saved.{on, ReadsBack}
use go_tartuffe.Repository.Filesystem.Loaded.{header_at}
use go_tartuffe.Repository.Filesystem.Writing.{write_json-ok, find-other}
use go_tartuffe.Repository.Filesystem.Several.{headers_at}
use go_tartuffe.Repository.Filesystem.Operations.{write_header}

-- The directory of the imposter, and what it holds.
pub below_port :
    (port : ℤ) (n : Text) (disk : Node)
    → IsClear (stubs_dir port ++ n ∷ []) disk
    → (fs : Entries) × (sub (imposter_dir port) disk ≡ dir fs)
      × ((m : Text) (q : FilePath)
          → find_node (itoa port ∷ m ∷ q) disk ≡ find_node (m ∷ q) (dir fs))
unfolding IsClear sub
below_port port n (file t) c = absurd c
below_port port n (dir es) c = go (child (itoa port) es) refl c
  where
    go :
        (x : Node)
        → child (itoa port) es ≡ x
        → IsClear (stubs_name ∷ n ∷ []) x
        → (fs : Entries) × (child (itoa port) es ≡ dir fs)
          × ((m : Text) (q : FilePath)
              → find_node (itoa port ∷ m ∷ q) (dir es) ≡ find_node (m ∷ q) (dir fs))
    go (file t) e c = absurd c
    go (dir fs) e c = (fs, e, λ m q. find-child (itoa port) m q es ∙ ap (find_node (m ∷ q)) e)

IsWritable-of_missing :
    (m : Text) (fs : Entries) → find_node (m ∷ []) (dir fs) ≡ failed not_exist → IsWritable m fs
unfolding find_node
IsWritable-of_missing m fs h below e = ground (arith, e, h)

pub child_missing :
    (n : Text) (es : Entries)
    → find_node (n ∷ []) (dir es) ≡ failed not_exist
    → child n es ≡ dir no_entries
unfolding find_node child
child_missing n es h = elim (Option-cases (lookup_entry n es)) [
  | inl e ↦ rw (child, e) refl
  | inr (node, e) ↦ absurd (ground (arith, e, h))
]

find_entry_of :
    (m : Text) (fs : Entries) (node : Node)
    → lookup_entry m fs ≡ some node
    → find_node (m ∷ []) (dir fs) ≡ done node
unfolding find_node
find_entry_of m fs node e = rw (find_node, e) refl

-- Directories of different ports.
pub ports_apart :
    (port j : ℤ) (p q : FilePath) → j ≢ port → are_apart (itoa port ∷ p) (itoa j ∷ q) ≡ true
unfolding are_apart
ports_apart port j p q h = rw (itoa_differs port j (λ e. h (sym e))) refl

-- No directory stands at the path.
abbrev pub IsNoDir : FilePath → Node → Type 0
IsNoDir path disk = (below : Entries) → find_node path disk ≢ done (dir below)

module _ (host : Host) where
  pub load_headers-same :
      (port : ℤ) (disk disk' : Node) (c : ℕ) (stubs : List Stub)
      → AgreeBelow (stubs_dir port) disk disk'
      → load_stubs host port (headers_at host c stubs) disk
        ≡ load_stubs host port (headers_at host c stubs) disk'
  unfolding load_stubs headers_at
  load_headers-same port disk disk' c [] h = refl
  load_headers-same port disk disk' c (s ∷ stubs) h =
      rw
        (
          load_stub-same host disk disk' port (header_at host c s) (λ q. h (_ ∷ q)),
          load_headers-same port disk disk' (c + 1 + length s.responses) stubs h,
        )
        refl

  pub no_requests :
      (port : ℤ) (disk : Node)
      → find_node (requests_dir port) disk ≡ failed not_exist
      → requests_or_none host port disk ≡ []
  unfolding requests_or_none load_requests requests_listed read_dir
  no_requests port disk h = rw (read_dir, h) refl

  read_header-ok :
      (port : ℤ) (disk : Node) (header : ImposterHeader)
      → read_json host.headers (imposter_dir port ++ imposter_json ∷ []) disk ≡ done header
      → read_header host port disk ≡ done header
  unfolding read_header
  read_header-ok port disk header h = rw (read_header, h) refl

  abbrev header_tmp : Text
  header_tmp = imposter_json ++ tmp_suffix

  pub record WritesHeader (port : ℤ) (header : ImposterHeader) (disk : Node) (c : ℕ) : Type 0 where
    pub left : Node
    pub runs : write_header host port header (on disk c) ≡ (done tt, on left c)
    pub reads : read_header host port left ≡ done header
    pub stubs_same : AgreeBelow (stubs_dir port) left disk
    pub requests_same : AgreeBelow (requests_dir port) left disk
    pub others_same : (j : ℤ) → j ≢ port → AgreeBelow (imposter_dir j) left disk

  pub write_header-ok :
      (port : ℤ) (header : ImposterHeader) (disk : Node) (c : ℕ) (n : Text)
      → IsClear (stubs_dir port ++ n ∷ []) disk
      → IsNoDir (imposter_dir port ++ imposter_json ∷ []) disk
      → IsNoDir (imposter_dir port ++ header_tmp ∷ []) disk
      → ReadsBack host.headers header
      → WritesHeader port header disk c
  unfolding write_header text_eq
  write_header-ok port header disk c n clear w w' back =
      let (fs, here, finds) = below_port port n disk clear in
      let clear' = IsClear-prefix (imposter_dir port) (stubs_name ∷ n ∷ []) disk clear in
      let (t, runs, reads) =
        write_json-ok host.headers imposter_json header (imposter_dir port) disk fs clear' here c
          (writable fs imposter_json (finds imposter_json []) w)
          (writable fs header_tmp (finds header_tmp []) w') refl back in
      let node = dir (saved header_tmp imposter_json t fs) in
      record {
        left = graft (imposter_dir port) node disk;
        runs = runs;
        reads = read_header-ok port (graft (imposter_dir port) node disk) header reads;
        stubs_same = λ q.
            find-other imposter_json t (imposter_dir port) disk fs clear' stubs_name q refl refl
            ∙ sym (finds stubs_name q);
        requests_same = λ q.
            find-other imposter_json t (imposter_dir port) disk fs clear' requests_name q refl refl
            ∙ sym (finds requests_name q);
        others_same = λ j h q.
            find-apart (imposter_dir port) (imposter_dir j ++ q) node disk
              (ports_apart port j [] q h);
      }
    where
      writable :
          (fs : Entries) (m : Text)
          → find_node (itoa port ∷ m ∷ []) disk ≡ find_node (m ∷ []) (dir fs)
          → IsNoDir (imposter_dir port ++ m ∷ []) disk
          → IsWritable m fs
      writable fs m same h below e = h below (same ∙ find_entry_of m fs (dir below) e)
