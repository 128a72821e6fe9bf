-- ===== src/Repository/Filesystem/Frame.antt =====
-- internal/repository/filesystem.go: what is read of an imposter depends on the files below its
-- directory only.
use go_tartuffe.Prelude.{List, [], ◌∷◌, ◌++◌, ℤ, ◌≡◌, refl, sym, ◌∙◌, ap, append_assoc, subst}
use go_tartuffe.Repository.Filesystem.{
  Codec, Host, ImposterStubHeader, imposter_dir, requests_dir, requests_name, imposter_json,
  meta_json,
}
use go_tartuffe.Repository.Filesystem.Disk.{
  Node, Entries, no_entries, entry, FilePath, Outcome, done, failed, not_exist, broken, repository,
  ◌>>=◌, find_node, read_file, read_dir,
}
use go_tartuffe.Repository.Filesystem.Actions.{read_json}
use go_tartuffe.Repository.Filesystem.Reading.{
  load_responses, load_stub, load_stubs, requests_in, requests_listed, load_requests,
  requests_or_none, read_header, get_imposter, sort_entries,
}

-- The same stands at and below the path.
abbrev pub AgreeBelow : FilePath → Node → Node → Type 0
AgreeBelow p disk disk' = (q : FilePath) → find_node (p ++ q) disk ≡ find_node (p ++ q) disk'

pub agree_longer :
    (p q : FilePath) (disk disk' : Node) → AgreeBelow p disk disk' → AgreeBelow (p ++ q) disk disk'
agree_longer p q disk disk' h r =
    subst (λ s. find_node s disk ≡ find_node s disk') (sym (append_assoc p q r)) (h (q ++ r))

read_json-same :
    {A : Type 0} (codec : Codec A) (path : FilePath) (disk disk' : Node)
    → find_node path disk ≡ find_node path disk'
    → read_json codec path disk ≡ read_json codec path disk'
unfolding read_json read_file
read_json-same codec path disk disk' h = rw (read_json, read_file, h) refl

read_dir-same :
    (path : FilePath) (disk disk' : Node)
    → find_node path disk ≡ find_node path disk'
    → read_dir path disk ≡ read_dir path disk'
unfolding read_dir
read_dir-same path disk disk' h = rw (read_dir, h) refl

>>=_same {ℓ κ} :
    {A : Type ℓ} {B : Type κ} (m n : Outcome A) (k l : A → Outcome B)
    → m ≡ n
    → ((a : A) → k a ≡ l a)
    → (m >>= k) ≡ (n >>= l)
>>=_same {A = A} m n k l e h = ap (λ m. m >>= k) e ∙ cases n
  where
    cases : (n : Outcome A) → (n >>= k) ≡ (n >>= l)
    cases (done a) = h a
    cases (failed e) = refl

module _ (host : Host) (disk disk' : Node) where
  load_responses-same :
      (p : FilePath) (paths : List FilePath)
      → AgreeBelow p disk disk'
      → load_responses host p paths disk ≡ load_responses host p paths disk'
  unfolding load_responses
  load_responses-same p [] h = refl
  load_responses-same p (q ∷ paths) h =
      rw (read_json-same host.responses (p ++ q) disk disk' (h q), load_responses-same p paths h)
        refl

  pub load_stub-same :
      (port : ℤ) (header : ImposterStubHeader)
      → AgreeBelow (imposter_dir port ++ header.meta_dir) disk disk'
      → load_stub host port header disk ≡ load_stub host port header disk'
  unfolding load_stub
  load_stub-same port header h =
      >>=_same (read_json host.metas (imposter_dir port ++ header.meta_dir ++ meta_json ∷ []) disk)
        (read_json host.metas (imposter_dir port ++ header.meta_dir ++ meta_json ∷ []) disk') _ _
        (read_json-same host.metas (imposter_dir port ++ header.meta_dir ++ meta_json ∷ []) disk
          disk' (h (meta_json ∷ [])))
        (λ meta.
          rw (load_responses-same (imposter_dir port ++ header.meta_dir) meta.response_files h)
            refl)

  module _ (port : ℤ) (agree : AgreeBelow (requests_dir port) disk disk') where
    requests_in-same :
        (es : Entries) → requests_in host port es disk ≡ requests_in host port es disk'
    unfolding requests_in
    requests_in-same no_entries = refl
    requests_in-same (entry name node es) =
        rw
          (
            read_json-same host.requests (requests_dir port ++ name ∷ []) disk disk'
                (agree (name ∷ [])),
            requests_in-same es,
          )
          refl

    requests_listed-same :
        (o : Outcome Entries) → requests_listed host port disk o ≡ requests_listed host port disk' o
    unfolding requests_listed
    requests_listed-same (done es) = ap done (requests_in-same (sort_entries es))
    requests_listed-same (failed not_exist) = refl
    requests_listed-same (failed broken) = refl
    requests_listed-same (failed (repository e)) = refl

    pub requests_or_none-same : requests_or_none host port disk ≡ requests_or_none host port disk'
    unfolding requests_or_none load_requests
    requests_or_none-same =
        ap (λ o. elim o [ failed e ↦ [] | done reqs ↦ reqs ])
          (ap (requests_listed host port disk)
              (read_dir-same (requests_dir port) disk disk' (agree []))
            ∙ requests_listed-same (read_dir (requests_dir port) disk'))

  module _ (port : ℤ) (agree : AgreeBelow (imposter_dir port) disk disk') where
    load_stubs-same :
        (headers : List ImposterStubHeader)
        → load_stubs host port headers disk ≡ load_stubs host port headers disk'
    unfolding load_stubs
    load_stubs-same [] = refl
    load_stubs-same (header ∷ headers) =
        rw
          (
            load_stub-same port header
                (agree_longer (imposter_dir port) header.meta_dir disk disk' agree),
            load_stubs-same headers,
          )
          refl

    -- Get sees the directory of its port only.
    pub get_imposter-same : get_imposter host port disk ≡ get_imposter host port disk'
    unfolding get_imposter read_header
    get_imposter-same =
        >>=_same (read_header host port disk) (read_header host port disk') _ _
          (rw
            (
              read_header,
              read_json-same host.headers (imposter_dir port ++ imposter_json ∷ []) disk disk'
                  (agree (imposter_json ∷ [])),
            )
            refl)
          (λ header.
            rw
              (
                load_stubs-same header.stubs,
                requests_or_none-same port (λ q. agree (requests_name ∷ q)),
              )
              refl)
