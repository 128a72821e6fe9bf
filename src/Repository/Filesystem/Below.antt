-- ===== src/Repository/Filesystem/Below.antt =====
-- internal/repository/filesystem.go: the steps that save a stub do in its directory what they do to
-- an empty disk.
use go_tartuffe.Prelude.{
  ℕ, suc, Text, List, [], ◌∷◌, ◌++◌, append-nil, Option-cases, inl, inr, ◌≡◌, refl, subst, ◌∙◌, ap,
}
use go_tartuffe.Models.Stub.{Response}
use go_tartuffe.Repository.Filesystem.{
  Codec, Host, Filesystem, StubMeta, responses_name, tmp_suffix, meta_json, json_suffix,
}
use go_tartuffe.Repository.Filesystem.Disk.{
  dir, no_entries, entry, child, lookup_entry, set_entry, Node, FilePath, Outcome, Entries, done,
  failed, ◌>>=◌, mkdir_all, in_directory, write_entry, move_entry,
}
use go_tartuffe.Repository.Filesystem.Disk.Graft.{
  graft, sub, IsClear, sub-graft, graft-graft, graft-IsClear, mkdir_all-sub, in_directory-graft,
}
use go_tartuffe.Repository.Filesystem.Actions
use go_tartuffe.Repository.Filesystem.Actions.{
  Action, then_run, give, settled, on_disk, filename_for, marshalled, write_json,
}
use go_tartuffe.Repository.Filesystem.Stubs.{save_responses, save_in, with_response, no_responses}

module _ (p : FilePath) (disk : Node) (clear : IsClear p disk) where
  -- A file system whose disk stands at the path.
  abbrev placed : Filesystem → Filesystem
  placed fs = record fs { disk = graft p fs.disk disk }

  abbrev pub below {ℓ} : {A : Type ℓ} → Outcome A × Filesystem → Outcome A × Filesystem
  below (o, fs) = (o, placed fs)

  -- The first step does below the path what the second does at the root.
  unfoldable Mirrors {ℓ} : {A : Type ℓ} → Action A → Action A → Type ℓ
  Mirrors m n = (fs : Filesystem) → m (placed fs) ≡ below (n fs)

  then_run-below {ℓ κ} :
      {A : Type ℓ} {B : Type κ} (k l : A → Action B)
      → ((a : A) → Mirrors (k a) (l a))
      → (r : Outcome A × Filesystem) → then_run k (below r) ≡ below (then_run l r)
  unfolding Mirrors
  then_run-below k l h (done a, fs) = h a fs
  then_run-below k l h (failed e, fs) = refl

  bind-Mirrors {ℓ κ} :
      {A : Type ℓ} {B : Type κ} (m n : Action A) (k l : A → Action B)
      → Mirrors m n
      → ((a : A) → Mirrors (k a) (l a))
      → Mirrors (Actions.◌>>=◌ m k) (Actions.◌>>=◌ n l)
  unfolding Mirrors
  bind-Mirrors m n k l h h' fs = ap (then_run k) (h fs) ∙ then_run-below k l h' (n fs)

  settled-below :
      (fs : Filesystem) (o : Outcome Node)
      → settled (placed fs) (o >>= λ y. done (graft p y disk)) ≡ below (settled fs o)
  settled-below fs (done y) = refl
  settled-below fs (failed e) = refl

  on_disk-Mirrors :
      (call local : Node → Outcome Node)
      → ((x : Node) → call (graft p x disk) ≡ (local x >>= λ y. done (graft p y disk)))
      → Mirrors (on_disk call) (on_disk local)
  unfolding on_disk Mirrors
  on_disk-Mirrors call local h fs = rw (h fs.disk) (settled-below fs (local fs.disk))

  change-Mirrors :
      (q : FilePath) (change : Entries → Outcome Entries)
      → Mirrors (on_disk (in_directory (p ++ q) change)) (on_disk (in_directory q change))
  change-Mirrors q change =
      on_disk-Mirrors (in_directory (p ++ q) change) (in_directory q change)
        (λ x. in_directory-graft p q change x disk clear)

  regrafted :
      (x : Node) (o : Outcome Node)
      → (o >>= λ y. done (graft p y (graft p x disk))) ≡ (o >>= λ y. done (graft p y disk))
  regrafted x (done y) = ap done (graft-graft p y x disk clear)
  regrafted x (failed e) = refl

  mkdir_all-Mirrors :
      (q : FilePath) → Mirrors (on_disk (mkdir_all (p ++ q))) (on_disk (mkdir_all q))
  mkdir_all-Mirrors q = on_disk-Mirrors (mkdir_all (p ++ q)) (mkdir_all q) (λ x.
      mkdir_all-sub p q (graft p x disk) (graft-IsClear p x disk clear)
      ∙ rw (sub-graft p x disk clear) (regrafted x (mkdir_all q x)))

  module _ {A : Type 0} (codec : Codec A) where
    marshalled-Mirrors : (a : A) → Mirrors (marshalled codec a) (marshalled codec a)
    unfolding marshalled Mirrors
    marshalled-Mirrors a fs = elim (Option-cases (codec.marshal a)) [
      | inl e ↦ rw (marshalled, e) refl
      | inr (t, e) ↦ rw (marshalled, e) refl
    ]

    write_json-Mirrors :
        (q : FilePath) (name : Text) (a : A)
        → Mirrors (write_json codec (p ++ q) name a) (write_json codec q name a)
    unfolding write_json
    write_json-Mirrors q name a = bind-Mirrors _ _ _ _ (mkdir_all-Mirrors q) (λ _.
        bind-Mirrors _ _ _ _ (marshalled-Mirrors a) (λ t.
          bind-Mirrors _ _ _ _ (change-Mirrors q (write_entry (name ++ tmp_suffix) t))
            (λ _. change-Mirrors q (move_entry (name ++ tmp_suffix) name))))

  give-Mirrors {ℓ} : {A : Type ℓ} (a : A) → Mirrors (give a) (give a)
  unfolding Mirrors
  give-Mirrors a fs = refl

  filename-Mirrors : (host : Host) → Mirrors (filename_for host) (filename_for host)
  unfolding filename_for Mirrors
  filename-Mirrors host fs = refl

  save_responses-Mirrors :
      (host : Host) (i : ℕ) (resps : List Response) (meta : StubMeta)
      → Mirrors (save_responses host p i resps meta) (save_responses host [] i resps meta)
  unfolding save_responses
  save_responses-Mirrors host i [] meta = give-Mirrors meta
  save_responses-Mirrors host i (resp ∷ resps) meta =
      bind-Mirrors _ _ _ _ (filename-Mirrors host) (λ name.
        bind-Mirrors _ _ _ _
          (write_json-Mirrors host.responses (responses_name ∷ []) (name ++ json_suffix) resp)
          (λ _.
            save_responses-Mirrors host (suc i) resps
              (with_response i (name ++ json_suffix) resp.repeat meta)))

  write_meta-Mirrors :
      (host : Host) (meta : StubMeta)
      → Mirrors (write_json host.metas p meta_json meta) (write_json host.metas [] meta_json meta)
  write_meta-Mirrors host meta =
      subst
        (λ q.
          Mirrors (write_json host.metas q meta_json meta)
            (write_json host.metas [] meta_json meta))
        (append-nil p) (write_json-Mirrors host.metas [] meta_json meta)

  -- What is saved after the directory of the responses has been made.
  save_rest : Host → FilePath → List Response → Unit {0} → Action (Unit {0})
  save_rest host stub_dir resps _ =
      Actions.◌>>=◌ (save_responses host stub_dir 0 resps no_responses)
        (λ meta. write_json host.metas stub_dir meta_json meta)

  save_rest-Mirrors :
      (host : Host) (resps : List Response) (u : Unit {0})
      → Mirrors (save_rest host p resps u) (save_rest host [] resps u)
  unfolding save_rest
  save_rest-Mirrors host resps u =
      bind-Mirrors _ _ _ _ (save_responses-Mirrors host 0 resps no_responses)
        (λ meta. write_meta-Mirrors host meta)

  -- Saving a stub in a new directory is saving it on an empty disk.
  pub save_in-below :
      (host : Host) (resps : List Response) (c : ℕ)
      → sub p disk ≡ dir no_entries
      → save_in host p resps (record { disk = disk; counter = c })
        ≡ below (save_in host [] resps (record { disk = dir no_entries; counter = c }))
  unfolding save_in save_rest on_disk Mirrors mkdir_all child lookup_entry set_entry
  save_in-below host resps c fresh =
      rw (mkdir_all-sub p (responses_name ∷ []) disk clear, fresh)
        (save_rest-Mirrors host resps tt
          (record { disk = dir (entry responses_name (dir no_entries) no_entries); counter = c }))

  module _ {A : Type 0} (codec : Codec A) where
    -- What writeJSON does once the directory is there.
    write_rest : FilePath → Text → A → Unit {0} → Action (Unit {0})
    write_rest q name a _ = Actions.◌>>=◌ (marshalled codec a) (λ t.
        Actions.◌>>◌ (on_disk (in_directory q (write_entry (name ++ tmp_suffix) t)))
          (on_disk (in_directory q (move_entry (name ++ tmp_suffix) name))))

    write_rest-Mirrors :
        (q : FilePath) (name : Text) (a : A) (u : Unit {0})
        → Mirrors (write_rest (p ++ q) name a u) (write_rest q name a u)
    unfolding write_rest
    write_rest-Mirrors q name a u = bind-Mirrors _ _ _ _ (marshalled-Mirrors codec a) (λ t.
        bind-Mirrors _ _ _ _ (change-Mirrors q (write_entry (name ++ tmp_suffix) t))
          (λ _. change-Mirrors q (move_entry (name ++ tmp_suffix) name)))

    write_json_here :
        (name : Text) (a : A) (es : Entries) (c : ℕ)
        → sub p disk ≡ dir es
        → write_json codec (p ++ []) name a (record { disk = disk; counter = c })
          ≡ below (write_json codec [] name a (record { disk = dir es; counter = c }))
    unfolding write_json write_rest on_disk Mirrors mkdir_all
    write_json_here name a es c here =
        rw (mkdir_all-sub p [] disk clear, here)
          (write_rest-Mirrors [] name a tt (record { disk = dir es; counter = c }))

    -- Writing a file in a directory that stands.
    pub write_json-below :
        (name : Text) (a : A) (es : Entries) (c : ℕ)
        → sub p disk ≡ dir es
        → write_json codec p name a (record { disk = disk; counter = c })
          ≡ below (write_json codec [] name a (record { disk = dir es; counter = c }))
    write_json-below name a es c here =
        subst
          (λ q.
            write_json codec q name a (record { disk = disk; counter = c })
            ≡ below (write_json codec [] name a (record { disk = dir es; counter = c })))
          (append-nil p) (write_json_here name a es c here)
