-- ===== src/Repository/Filesystem/Stubs.antt =====
-- internal/repository/filesystem.go: saveStub.
use go_tartuffe.Prelude.{ℕ, suc, ◌++◌, List, [], ◌∷◌, Text, ℤ, pos, replicate}
use go_tartuffe.Models.Stub.{Stub, Response}
use go_tartuffe.Repository.Filesystem.{
  Host, StubMeta, ImposterStubHeader, stubs_dir, stubs_name, responses_name, meta_json, json_suffix,
}
use go_tartuffe.Repository.Filesystem.Disk.{FilePath, mkdir_all}
use go_tartuffe.Repository.Filesystem.Actions.{
  Action, ◌>>=◌, ◌>>◌, give, on_disk, filename_for, write_json,
}

-- resp.Repeat if it is positive, else 1
unfoldable pub repeat_of : ℤ → ℕ
repeat_of (pos (suc n)) = suc n
repeat_of r = 1

abbrev pub no_responses : StubMeta
no_responses = record { response_files = []; order_with_repeats = []; next_index = pos 0 }

-- The meta data with one more response, the i-th, in this file.
unfoldable pub with_response : ℕ → Text → ℤ → StubMeta → StubMeta
unfolding repeat_of
with_response i name repeat meta = record meta {
  response_files = meta.response_files ++ (responses_name ∷ name ∷ []) ∷ [];
  order_with_repeats = meta.order_with_repeats ++ replicate (repeat_of repeat) i;
}

module _ (host : Host) where
  unfoldable pub save_responses : FilePath → ℕ → List Response → StubMeta → Action StubMeta
  unfolding with_response write_json filename_for
  save_responses stub_dir i [] meta = give meta
  save_responses stub_dir i (resp ∷ resps) meta = do
    name ← filename_for host
    write_json host.responses (stub_dir ++ responses_name ∷ []) (name ++ json_suffix) resp
    save_responses stub_dir (suc i) resps (with_response i (name ++ json_suffix) resp.repeat meta)

  unfoldable pub save_in : FilePath → List Response → Action (Unit {0})
  unfolding save_responses on_disk write_json
  save_in stub_dir resps = do
    on_disk (mkdir_all (stub_dir ++ responses_name ∷ []))
    meta ← save_responses stub_dir 0 resps no_responses
    write_json host.metas stub_dir meta_json meta

  -- saveStub
  unfoldable pub save_stub : ℤ → Stub → Action ImposterStubHeader
  unfolding filename_for save_in
  save_stub port stub = do
    name ← filename_for host
    save_in (stubs_dir port ++ name ∷ []) stub.responses
    give (record { predicates = stub.predicates; meta_dir = stubs_name ∷ name ∷ [] })

  -- for _, stub := range stubs { … }
  unfoldable pub save_stubs : ℤ → List Stub → Action (List ImposterStubHeader)
  unfolding save_stub
  save_stubs port [] = give []
  save_stubs port (stub ∷ stubs) = do
    header ← save_stub port stub
    headers ← save_stubs port stubs
    give (header ∷ headers)
