-- ===== src/Repository/Filesystem/Saved.antt =====
-- internal/repository/filesystem.go: the directory that saveStub writes, and what loadStub reads
-- from it.
use go_tartuffe.Prelude.{
  ℕ, suc, ◌+◌, ◌^◌, ◌<◌, ◌≤◌, Text, text_eq, text_eq_refl, List, [], ◌∷◌, ◌++◌, length,
  append_assoc, append-nil, some, ◌≡◌, refl, sym, ap, ◌∙◌, arith,
}
use go_tartuffe.Models.Stub.{Response, increment_64}
use go_tartuffe.Repository.Filesystem.{
  Codec, Host, Filesystem, StubMeta, responses_name, tmp_suffix,
}
use go_tartuffe.Repository.Filesystem.Disk.{
  Node, file, dir, Entries, no_entries, entry, FilePath, Outcome, done, lookup_entry, set_entry,
  mkdir_all, child, in_directory, write_entry, move_entry,
}
use go_tartuffe.Repository.Filesystem.Disk.Entry.{
  AreFiles, write_entry-ok, move_entry-ok, saved, saved-AreFiles, lookup-saved,
}
use go_tartuffe.Repository.Filesystem.Names.{file_at, files_differ, tmp_differs}
use go_tartuffe.Repository.Filesystem.Actions.{on_disk, marshalled, write_json}
use go_tartuffe.Repository.Filesystem.Stubs.{save_responses, with_response}

-- What is written as JSON is read back.
abbrev pub ReadsBack : {A : Type 0} → Codec A → A → Type 0
ReadsBack codec a = (t : Text) × (codec.marshal a ≡ some t) × (codec.unmarshal t ≡ some a)

unfoldable pub AllReadBack : {A : Type 0} → Codec A → List A → Type 0
AllReadBack codec [] = Unit
AllReadBack codec (a ∷ rest) = ReadsBack codec a × AllReadBack codec rest

-- The directory of a stub, before its meta data are there.
abbrev pub in_responses : Entries → Node
in_responses es = dir (entry responses_name (dir es) no_entries)

abbrev pub on : Node → ℕ → Filesystem
on disk c = record { disk = disk; counter = c }

pub made_already :
    (es : Entries) (c : ℕ)
    → on_disk (mkdir_all (responses_name ∷ [])) (on (in_responses es) c)
      ≡ (done tt, on (in_responses es) c)
unfolding on_disk mkdir_all child lookup_entry set_entry text_eq
made_already es c = refl

changed_entries :
    (change : Entries → Outcome Entries) (es es' : Entries) (c : ℕ)
    → change es ≡ done es'
    → on_disk (in_directory (responses_name ∷ []) change) (on (in_responses es) c)
      ≡ (done tt, on (in_responses es') c)
unfolding on_disk in_directory lookup_entry set_entry text_eq
changed_entries change es es' c e = rw e refl

pub marshalled-ok :
    {A : Type 0} (codec : Codec A) (a : A) (t : Text) (fs : Filesystem)
    → codec.marshal a ≡ some t
    → marshalled codec a fs ≡ (done t, fs)
unfolding marshalled
marshalled-ok codec a t fs e = rw (marshalled, e) refl

write_json-responses :
    {A : Type 0} (codec : Codec A) (name t : Text) (a : A) (es : Entries) (c : ℕ)
    → AreFiles es
    → codec.marshal a ≡ some t
    → write_json codec (responses_name ∷ []) name a (on (in_responses es) c)
      ≡ (done tt, on (in_responses (saved (name ++ tmp_suffix) name t es)) c)
unfolding write_json
write_json-responses codec name t a es c files e =
    rw
      (
        made_already es c,
        marshalled-ok codec a t (on (in_responses es) c) e,
        changed_entries (write_entry (name ++ tmp_suffix) t) es
            (set_entry (name ++ tmp_suffix) (file t) es) c
            (write_entry-ok (name ++ tmp_suffix) t es (files (name ++ tmp_suffix))),
      )
      (changed_entries (move_entry (name ++ tmp_suffix) name)
        (set_entry (name ++ tmp_suffix) (file t) es) (saved (name ++ tmp_suffix) name t es) c
        (move_entry-ok (name ++ tmp_suffix) name t es (files name)))

module _ (host : Host) where
  -- The files that the responses get after the counter `c`, and the meta data with them.
  unfoldable pub files_of : ℕ → List Response → List FilePath
  files_of c [] = []
  files_of c (r ∷ rs) = (responses_name ∷ file_at host (c + 1) ∷ []) ∷ files_of (c + 1) rs

  unfoldable pub meta_of : ℕ → ℕ → List Response → StubMeta → StubMeta
  meta_of c i [] meta = meta
  meta_of c i (r ∷ rs) meta =
      meta_of (c + 1) (suc i) rs (with_response i (file_at host (c + 1)) r.repeat meta)

  pub files-meta_of :
      (c i : ℕ) (rs : List Response) (meta : StubMeta)
      → (meta_of c i rs meta).response_files ≡ meta.response_files ++ files_of c rs
  unfolding meta_of files_of with_response
  files-meta_of c i [] meta = sym (append-nil meta.response_files)
  files-meta_of c i (r ∷ rs) meta =
      files-meta_of (c + 1) (suc i) rs (with_response i (file_at host (c + 1)) r.repeat meta)
      ∙ append_assoc meta.response_files _ (files_of (c + 1) rs)

  -- The directory has a file for each response, under its name.
  unfoldable pub HasFiles : Entries → ℕ → List Response → Type 0
  HasFiles es c [] = Unit
  HasFiles es c (r ∷ rs) =
      ((t : Text) × (lookup_entry (file_at host (c + 1)) es ≡ some (file t))
        × (host.responses.unmarshal t ≡ some r))
      × HasFiles es (c + 1) rs

  -- Where saving the responses succeeds: what it leaves, with the older files.
  pub record SavesFiles (es : Entries) (c i : ℕ) (rs : List Response) (meta : StubMeta)
      : Type 0 where
    pub left : Entries
    pub runs :
        save_responses host [] i rs meta (on (in_responses es) c)
        ≡ (done (meta_of c i rs meta), on (in_responses left) (c + length rs))
    pub has : HasFiles left c rs
    pub keeps :
        (d : ℕ) → d ≤ c → lookup_entry (file_at host d) left ≡ lookup_entry (file_at host d) es

  pub increment_64-small : (c : ℕ) → c + 1 < 2 ^ 63 → increment_64 c ≡ c + 1
  unfolding increment_64
  increment_64-small c h = ground arith

  pub same_counter {ℓ} :
      {A : Type ℓ} (a : A) (disk : Node) (m n : ℕ)
      → m ≡ n
      → ◌≡◌ {A = Outcome A × Filesystem} (done a, on disk m) (done a, on disk n)
  same_counter a disk m n e = ap (λ k. (done a, on disk k)) e

  file_there :
      (es : Entries) (c : ℕ) (t : Text)
      → lookup_entry (file_at host c) (saved (file_at host c ++ tmp_suffix) (file_at host c) t es)
        ≡ some (file t)
  file_there es c t =
      rw
        (
          lookup-saved (file_at host c ++ tmp_suffix) (file_at host c) t (file_at host c) es
              (tmp_differs host (file_at host c) c),
          text_eq_refl (file_at host c),
        )
        refl

  file_kept :
      (es : Entries) (c d : ℕ) (t : Text)
      → d < c
      → c < 2 ^ 63
      → lookup_entry (file_at host d) (saved (file_at host c ++ tmp_suffix) (file_at host c) t es)
        ≡ lookup_entry (file_at host d) es
  file_kept es c d t h small =
      rw
        (
          lookup-saved (file_at host c ++ tmp_suffix) (file_at host c) t (file_at host d) es
              (tmp_differs host (file_at host c) d),
          files_differ host c d small (omega arith) (omega arith),
        )
        refl

  pub save_responses-ok :
      (es : Entries) (c i : ℕ) (rs : List Response) (meta : StubMeta)
      → AreFiles es
      → AllReadBack host.responses rs
      → c + length rs < 2 ^ 63
      → SavesFiles es c i rs meta
  unfolding save_responses meta_of HasFiles AllReadBack
  save_responses-ok es c i [] meta files back small = record {
    left = es;
    runs = same_counter meta (in_responses es) c (c + 0) (omega arith);
    has = tt;
    keeps = λ d h. refl;
  }
  save_responses-ok es c i (r ∷ rs) meta files ((t, m, u), back) small =
      let name = file_at host (c + 1) in
      let es1 = saved (name ++ tmp_suffix) name t es in
      let rest =
        save_responses-ok es1 (c + 1) (suc i) rs (with_response i name r.repeat meta)
          (saved-AreFiles (name ++ tmp_suffix) name t es files) back (omega arith) in
      record {
        left = rest.left;
        runs =
            rw
              (
                increment_64-small c (omega arith),
                write_json-responses host.responses name t r es (c + 1) files m,
              )
              (rest.runs
                ∙ same_counter _ (in_responses rest.left) (c + 1 + length rs) (c + suc (length rs))
                    (omega arith));
        has = ((t, rest.keeps (c + 1) (omega arith) ∙ file_there es (c + 1) t, u), rest.has);
        keeps = λ d h.
            rest.keeps d (omega arith) ∙ file_kept es (c + 1) d t (omega arith) (omega arith);
      }
