-- ===== src/Repository/Filesystem/Loaded.antt =====
-- internal/repository/filesystem.go: loadStub on what saveStub leaves.
use go_tartuffe.Prelude.{
  ℕ, ◌+◌, ◌^◌, ◌<◌, Text, text_eq, List, [], ◌∷◌, ◌++◌, length, some, ℤ, ◌≡◌, refl, ◌∙◌, arith,
}
use go_tartuffe.Models.Stub.{Stub, Response}
use go_tartuffe.Repository.Filesystem.{
  Codec, Host, StubMeta, ImposterStubHeader, responses_name, meta_json, stubs_dir, stubs_name,
  imposter_dir,
}
use go_tartuffe.Repository.Filesystem.Disk.{
  Node, file, dir, Entries, no_entries, entry, FilePath, done, lookup_entry, set_entry,
  remove_entry, mkdir_all, child, in_directory, find_node, read_file, write_entry, move_entry,
}
use go_tartuffe.Repository.Filesystem.Disk.Graft.{graft, sub, IsClear, find-graft}
use go_tartuffe.Repository.Filesystem.Disk.Entry.{AreFiles}
use go_tartuffe.Repository.Filesystem.Names.{file_at}
use go_tartuffe.Repository.Filesystem.Actions.{
  name_at, filename_for, on_disk, write_json, read_json,
}
use go_tartuffe.Repository.Filesystem.Stubs.{save_in, save_stub, no_responses}
use go_tartuffe.Repository.Filesystem.Below.{save_in-below}
use go_tartuffe.Repository.Filesystem.Reading.{load_responses, load_stub, loaded}
use go_tartuffe.Repository.Filesystem.Saved.{
  ReadsBack, AllReadBack, in_responses, on, marshalled-ok, files_of, files-meta_of, meta_of,
  HasFiles, increment_64-small, save_responses-ok,
}

abbrev pub stub_node : Entries → Text → Node
stub_node es t = dir (entry responses_name (dir es) (entry meta_json (file t) no_entries))

write_json-meta :
    (codec : Codec StubMeta) (meta : StubMeta) (t : Text) (es : Entries) (c : ℕ)
    → codec.marshal meta ≡ some t
    → write_json codec [] meta_json meta (on (in_responses es) c) ≡ (done tt, on (stub_node es t) c)
unfolding write_json on_disk mkdir_all in_directory write_entry move_entry lookup_entry set_entry
    remove_entry text_eq
write_json-meta codec meta t es c e =
    rw (marshalled-ok codec meta t (on (in_responses es) c) e) refl

pub read_json-ok :
    {A : Type 0} (codec : Codec A) (path : FilePath) (disk : Node) (t : Text) (a : A)
    → find_node path disk ≡ done (file t)
    → codec.unmarshal t ≡ some a
    → read_json codec path disk ≡ done a
unfolding read_json read_file
read_json-ok codec path disk t a f u = rw (read_json, read_file, f, u) refl

pub find_entry :
    (es : Entries) (u name : Text)
    → lookup_entry name es ≡ some (file u)
    → find_node (name ∷ []) (dir es) ≡ done (file u)
unfolding find_node
find_entry es u name f = rw (find_node, f) refl

find_response :
    (es : Entries) (t u name : Text)
    → lookup_entry name es ≡ some (file u)
    → find_node (responses_name ∷ name ∷ []) (stub_node es t) ≡ done (file u)
unfolding find_node lookup_entry text_eq
find_response es t u name f = find_entry es u name f

find_meta : (es : Entries) (t : Text) → find_node (meta_json ∷ []) (stub_node es t) ≡ done (file t)
unfolding find_node lookup_entry text_eq
find_meta es t = refl

no_entries-AreFiles : AreFiles no_entries
unfolding lookup_entry
no_entries-AreFiles n below e = ground (arith, e)

made_empty :
    (c : ℕ)
    → on_disk (mkdir_all (responses_name ∷ [])) (on (dir no_entries) c)
      ≡ (done tt, on (in_responses no_entries) c)
unfolding on_disk mkdir_all child lookup_entry set_entry
made_empty c = refl

module _ (host : Host) where
  -- A directory from which a stub with these responses is read.
  abbrev pub IsStubDir : List Response → Node → Type 0
  IsStubDir rs node =
      (p : FilePath) (disk : Node)
      → IsClear p disk
      → ((meta : StubMeta) × (read_json host.metas (p ++ meta_json ∷ []) (graft p node disk)
            ≡ done meta)
          × (load_responses host p meta.response_files (graft p node disk) ≡ done rs))

  load_responses-files :
      (es : Entries) (t : Text) (c : ℕ) (rs : List Response) (p : FilePath) (disk : Node)
      → IsClear p disk
      → HasFiles host es c rs
      → load_responses host p (files_of host c rs) (graft p (stub_node es t) disk) ≡ done rs
  unfolding load_responses files_of HasFiles
  load_responses-files es t c [] p disk clear h = refl
  load_responses-files es t c (r ∷ rs) p disk clear ((u, f, m), h) =
      rw
        (
          read_json-ok host.responses (p ++ responses_name ∷ file_at host (c + 1) ∷ [])
              (graft p (stub_node es t) disk) u r
              (find-graft p (responses_name ∷ file_at host (c + 1) ∷ []) (stub_node es t) disk clear
                ∙ find_response es t u (file_at host (c + 1)) f)
              m,
          load_responses-files es t (c + 1) rs p disk clear h,
        )
        refl

  pub record SavesStub (rs : List Response) (c : ℕ) : Type 0 where
    pub node : Node
    pub runs : save_in host [] rs (on (dir no_entries) c) ≡ (done tt, on node (c + length rs))
    pub is_read : IsStubDir rs node

  pub save_in-ok :
      (rs : List Response) (c : ℕ)
      → AllReadBack host.responses rs
      → ReadsBack host.metas (meta_of host c 0 rs no_responses)
      → c + length rs < 2 ^ 63
      → SavesStub rs c
  save_in-ok rs c back (t, m, u) small =
      let s =
        save_responses-ok host no_entries c 0 rs no_responses no_entries-AreFiles back small in
      record {
        node = stub_node s.left t;
        runs =
            unfold save_in in
            rw (made_empty c, s.runs)
              (write_json-meta host.metas (meta_of host c 0 rs no_responses) t s.left
                (c + length rs) m);
        is_read = λ p disk clear. (
          meta_of host c 0 rs no_responses,
          read_json-ok host.metas (p ++ meta_json ∷ []) (graft p (stub_node s.left t) disk) t
              (meta_of host c 0 rs no_responses)
              (find-graft p (meta_json ∷ []) (stub_node s.left t) disk clear ∙ find_meta s.left t)
              u,
          rw (files-meta_of host c 0 rs no_responses)
              (load_responses-files s.left t c rs p disk clear s.has),
        );
      }

  -- Where a stub is saved: the directory, and the stub that is read from it.
  abbrev pub place : ℤ → ℕ → FilePath
  place port c = stubs_dir port ++ name_at host (c + 1) ∷ []

  abbrev pub header_at : ℕ → Stub → ImposterStubHeader
  header_at c stub = record {
    predicates = stub.predicates;
    meta_dir = stubs_name ∷ name_at host (c + 1) ∷ [];
  }

  -- The JSON of the stub, saved after the counter `c`, reads back.
  abbrev pub StubReadsBack : ℕ → Stub → Type 0
  StubReadsBack c stub =
      AllReadBack host.responses stub.responses
      × ReadsBack host.metas (meta_of host (c + 1) 0 stub.responses no_responses)

  pub save_stub-ok :
      (port : ℤ) (stub : Stub) (disk : Node) (c : ℕ)
      → IsClear (place port c) disk
      → sub (place port c) disk ≡ dir no_entries
      → StubReadsBack c stub
      → c + 1 + length stub.responses < 2 ^ 63
      → (node : Node) × IsStubDir stub.responses node
        × (save_stub host port stub (on disk c) ≡ (
          done (header_at c stub),
          on (graft (place port c) node disk) (c + 1 + length stub.responses),
        ))
  unfolding save_stub filename_for
  save_stub-ok port stub disk c clear fresh (back, meta) small =
      let s = save_in-ok stub.responses (c + 1) back meta small in
      (
        s.node,
        s.is_read,
        rw
            (
              increment_64-small host c (omega arith),
              save_in-below (place port c) disk clear host stub.responses (c + 1) fresh,
              s.runs,
            )
            refl,
      )

  -- loadStub of a header whose directory is such a directory.
  pub load_stub-ok :
      (port : ℤ) (header : ImposterStubHeader) (rs : List Response) (node disk : Node)
      → IsClear (imposter_dir port ++ header.meta_dir) disk
      → IsStubDir rs node
      → load_stub host port header (graft (imposter_dir port ++ header.meta_dir) node disk)
        ≡ done (loaded header rs)
  unfolding load_stub
  load_stub-ok port header rs node disk clear h =
      let (meta, m, l) = h (imposter_dir port ++ header.meta_dir) disk clear in rw (m, l) refl
