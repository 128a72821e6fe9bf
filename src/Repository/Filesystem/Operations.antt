-- ===== src/Repository/Filesystem/Operations.antt =====
-- internal/repository/filesystem.go: the operations that change the disk.
use go_tartuffe.Prelude.{
  ℕ, ◌+◌, Text, Bool, true, List, [], ◌∷◌, ◌++◌, take, drop, length, get_elem?, none, some,
  if◌then◌else◌, leb, ℤ, pos, negsuc,
}
use go_tartuffe.Models.Request.{Request}
use go_tartuffe.Models.Stub.{Stub}
use go_tartuffe.Models.Imposter.{Imposter}
use go_tartuffe.Repository.{not_found, conflict, invalid_index}
use go_tartuffe.Repository.Memory.{keep_written}
use go_tartuffe.Repository.Filesystem.{
  Host, Filesystem, ImposterHeader, ImposterStubHeader, imposter_dir, requests_dir, itoa,
  imposter_json, stubs_name, requests_name, json_suffix,
}
use go_tartuffe.Repository.Filesystem.Disk.{
  Node, FilePath, not_exist, broken, repository, Outcome, done, failed, find_node, mkdir_all,
  remove_all, read_dir,
}
use go_tartuffe.Repository.Filesystem.Actions.{
  Action, ◌>>=◌, ◌>>◌, give, fail, on_disk, ignoring, read_json, write_json, filename_for,
}
use go_tartuffe.Repository.Filesystem.Stubs.{save_stub, save_stubs}
use go_tartuffe.Repository.Filesystem.Reading.{
  read_header, get_imposter, imposters_in, sort_entries,
}

-- What a call reads from the disk.
abbrev pub looking {ℓ} : {A : Type ℓ} → (Node → Outcome A) → Action A
looking read fs = (read fs.disk, fs)

-- A step, and another that runs only if it fails, before its error is returned.
abbrev pub cleaned {ℓ} :
    {A : Type ℓ} → Action (Unit {0}) → Outcome A × Filesystem → Outcome A × Filesystem
cleaned cleanup (done a, fs) = (done a, fs)
cleaned cleanup (failed e, fs) = (failed e, (cleanup fs).1)

abbrev pub or_else {ℓ} : {A : Type ℓ} → Action A → Action (Unit {0}) → Action A
or_else step cleanup fs = cleaned cleanup (step fs)

-- os.Stat(impDir)
unfoldable pub unless_present : ℤ → Action (Unit {0})
unless_present port fs = elim (find_node (imposter_dir port) fs.disk) [
  | done node ↦ (failed (repository (conflict port)), fs)
  | failed e ↦ (done tt, fs)
]

-- if _, err := os.Stat(imposterFile); os.IsNotExist(err)
unfoldable pub require_header : ℤ → Action (Unit {0})
require_header port fs = elim (find_node (imposter_dir port ++ imposter_json ∷ []) fs.disk) [
  | failed not_exist ↦ (failed (repository (not_found port)), fs)
  | _ ↦ (done tt, fs)
]

abbrev pub header_of : Imposter → List ImposterStubHeader → ImposterHeader
header_of imp stubs = record {
  protocol = imp.protocol;
  port = imp.port;
  name = imp.name;
  record_requests = imp.record_requests;
  stubs = stubs;
}

-- index < 0 || index >= len(header.Stubs)
unfoldable pub is_beyond : ℤ → List ImposterStubHeader → Bool
is_beyond (pos i) headers = leb (length headers) i
is_beyond (negsuc i) headers = true

abbrev pub position : ℤ → ℕ
position (pos i) = i
position (negsuc i) = 0

unfoldable pub with_header :
    ImposterStubHeader → ℤ → List ImposterStubHeader → List ImposterStubHeader
unfolding is_beyond
with_header header index headers =
    if is_beyond index headers
    then headers ++ header ∷ []
    else take (position index) headers ++ header ∷ drop (position index) headers

abbrev pub without_header : ℤ → List ImposterStubHeader → List ImposterStubHeader
without_header index headers = take (position index) headers ++ drop (position index + 1) headers

-- The path of the last name of a relative path, and that name: os.RemoveAll of a path below a
-- directory. The empty path is the directory itself.
unfoldable pub remove_below : FilePath → Text → FilePath → Node → Outcome Node
remove_below path last [] = remove_all path last
remove_below path last (name ∷ names) = remove_below (path ++ last ∷ []) name names

module _ (host : Host) where
  unfoldable pub write_header : ℤ → ImposterHeader → Action (Unit {0})
  write_header port = write_json host.headers (imposter_dir port) imposter_json

  -- Add
  unfoldable pub add_imposter : Imposter → Action (Unit {0})
  unfolding unless_present save_stubs write_header
  add_imposter imp = do
    unless_present imp.port
    on_disk (mkdir_all (imposter_dir imp.port))
    headers ←
        or_else (save_stubs host imp.port imp.stubs) (ignoring (remove_all [] (itoa imp.port)))
    write_header imp.port (header_of imp headers)

  -- Delete
  unfoldable pub delete_imposter : ℤ → Action Imposter
  unfolding get_imposter
  delete_imposter port = do
    imp ← looking (get_imposter host port)
    on_disk (remove_all [] (itoa port))
    give imp

  unfoldable pub remove_each : List (ℤ × Imposter) → Action (List Imposter)
  remove_each [] = give []
  remove_each ((port, imp) ∷ rest) = do
    ignoring (remove_all [] (itoa port))
    imps ← remove_each rest
    give (imp ∷ imps)

  -- UpdateStubs
  unfoldable pub replace_stubs : ℤ → List Stub → Action (Unit {0})
  unfolding save_stubs write_header read_header
  replace_stubs port stubs = do
    header ← looking (read_header host port)
    ignoring (remove_all (imposter_dir port) stubs_name)
    headers ← save_stubs host port stubs
    write_header port (record header { stubs = headers })

  -- AddStub
  unfoldable pub insert_stub : ℤ → Stub → ℤ → Action (Unit {0})
  unfolding save_stub write_header with_header read_header
  insert_stub port stub index = do
    header ← looking (read_header host port)
    stub_header ← save_stub host port stub
    write_header port (record header { stubs = with_header stub_header index header.stubs })

  -- The directory of the stub that DeleteStub removes, or its error.
  unfoldable pub dir_at : ℤ → List ImposterStubHeader → Action FilePath
  unfolding is_beyond
  dir_at index headers = elim (get_elem? headers (position index)) [
    | none ↦ fail (repository (invalid_index index (pos (length headers))))
    | some header ↦
        if is_beyond index headers
        then fail (repository (invalid_index index (pos (length headers))))
        else give header.meta_dir
  ]

  -- DeleteStub
  unfoldable pub remove_stub : ℤ → ℤ → Action (Unit {0})
  unfolding dir_at write_header remove_below read_header
  remove_stub port index = do
    header ← looking (read_header host port)
    meta_dir ← dir_at index header.stubs
    write_header port (record header { stubs = without_header index header.stubs })
    ignoring (remove_below [] (itoa port) meta_dir)

  -- ClearRequests
  unfoldable pub remove_requests : ℤ → Action (Unit {0})
  unfolding require_header
  remove_requests port = do
    require_header port
    on_disk (remove_all (imposter_dir port) requests_name)

  -- ClearRequestsAndProxyStubs
  unfoldable pub remove_requests_and_proxy_stubs : ℤ → Action (Unit {0})
  unfolding require_header
  remove_requests_and_proxy_stubs port = do
    require_header port
    imp ← looking (read_json host.imposters (imposter_dir port ++ imposter_json ∷ []))
    ignoring (remove_all (imposter_dir port) requests_name)
    write_json host.imposters (imposter_dir port) imposter_json
        (record imp { stubs = keep_written imp.stubs; number_of_requests = some (pos 0) })

  unfoldable pub stamped : ℕ → Request → Request
  stamped c req = elim req.timestamp [ [] ↦ record req { timestamp = host.now c } | _ ∷ _ ↦ req ]

  -- AddRequest
  unfoldable pub append_request : ℤ → Request → Action (Unit {0})
  unfolding require_header stamped filename_for
  append_request port req fs =
      (do
        require_header port
        on_disk (mkdir_all (requests_dir port))
        name ← filename_for host
        write_json host.requests (requests_dir port) (name ++ json_suffix) (stamped fs.counter req))
        fs

-- DeleteAll
unfoldable pub delete_all_stored : Host → Action (List Imposter)
unfolding imposters_in sort_entries read_dir remove_each
delete_all_stored host fs = elim (read_dir [] fs.disk) [
  | failed not_exist ↦ (done [], fs)
  | failed broken ↦ (failed broken, fs)
  | failed (repository e) ↦ (failed (repository e), fs)
  | done es ↦ remove_each host (imposters_in host (sort_entries es) fs.disk) fs
]
