-- ===== src/Repository/Filesystem/Reading.antt =====
-- internal/repository/filesystem.go: getImposter, loadStub, loadRequests, All and Exists.
use go_tartuffe.Prelude.{
  Text, Bool, true, false, List, [], ◌∷◌, ◌++◌, none, some, if◌then◌else◌, ltb, ◌==◌, ℤ, pos,
  negsuc, has_suffix, atoi, ◌||◌, ◌&&◌,
}
use go_tartuffe.Models.Request.{Request}
use go_tartuffe.Models.Stub.{Stub, Response}
use go_tartuffe.Models.Imposter.{Imposter}
use go_tartuffe.Repository.{not_found}
use go_tartuffe.Repository.Filesystem.{
  Host, ImposterHeader, ImposterStubHeader, imposter_dir, requests_dir, imposter_json, meta_json,
  json_suffix,
}
use go_tartuffe.Repository.Filesystem.Disk.{
  Node, file, dir, Entries, no_entries, entry, FilePath, not_exist, broken, repository, Outcome,
  done, failed, ◌>>=◌, find_node, read_dir,
}
use go_tartuffe.Repository.Filesystem.Actions.{read_json}

-- a < b on strings
unfoldable pub text_lt : Text → Text → Bool
text_lt s [] = false
text_lt [] (b ∷ t) = true
text_lt (a ∷ s) (b ∷ t) = ltb a b || ((a == b) && text_lt s t)

unfoldable pub insert_entry : Text → Node → Entries → Entries
unfolding text_lt
insert_entry name node no_entries = entry name node no_entries
insert_entry name node (entry n x es) =
    if text_lt n name then entry n x (insert_entry name node es) else entry name node (entry n x es)

-- sort.Slice by name, and the order of os.ReadDir
unfoldable pub sort_entries : Entries → Entries
unfolding insert_entry
sort_entries no_entries = no_entries
sort_entries (entry n node es) = insert_entry n node (sort_entries es)

-- imp.Port < other.Port
unfoldable pub int_lt : ℤ → ℤ → Bool
int_lt (pos a) (pos b) = ltb a b
int_lt (negsuc a) (pos b) = true
int_lt (pos a) (negsuc b) = false
int_lt (negsuc a) (negsuc b) = ltb b a

unfoldable pub insert_imposter : Imposter → List Imposter → List Imposter
unfolding int_lt
insert_imposter imp [] = imp ∷ []
insert_imposter imp (other ∷ imps) =
    if int_lt other.port imp.port then other ∷ insert_imposter imp imps else imp ∷ other ∷ imps

-- sort.Slice by port
unfoldable pub sort_imposters : List Imposter → List Imposter
unfolding insert_imposter
sort_imposters [] = []
sort_imposters (imp ∷ imps) = insert_imposter imp (sort_imposters imps)

-- The fields that the header has, the others as the zero value leaves them.
unfoldable pub restored : ℤ → ImposterHeader → List Stub → List Request → Imposter
restored port header stubs reqs = record {
  port = port;
  protocol = header.protocol;
  name = header.name;
  host = [];
  mode = [];
  record_requests = header.record_requests;
  allow_cors = false;
  stubs = stubs;
  default_response = none;
  requests = reqs;
  tcp_requests = [];
  smtp_requests = [];
  grpc_requests = [];
  number_of_requests = none;
}

unfoldable pub loaded : ImposterStubHeader → List Response → Stub
loaded header resps = record {
  predicates = header.predicates;
  responses = resps;
  links = none;
  response_index = 0;
  repeat_count = 0;
  is_proxy_generated = false;
}

-- An element that is left out if it could not be read.
abbrev pub if_read {ℓ} : {A : Type ℓ} → Outcome A → List A → List A
if_read (failed e) rest = rest
if_read (done a) rest = a ∷ rest

module _ (host : Host) where
  unfoldable pub load_responses : FilePath → List FilePath → Node → Outcome (List Response)
  unfolding read_json
  load_responses stub_dir [] disk = done []
  load_responses stub_dir (path ∷ paths) disk = do
    resp ← read_json host.responses (stub_dir ++ path) disk
    resps ← load_responses stub_dir paths disk
    done (resp ∷ resps)

  -- loadStub
  unfoldable pub load_stub : ℤ → ImposterStubHeader → Node → Outcome Stub
  unfolding load_responses read_json loaded
  load_stub port header disk = do
    let stub_dir = imposter_dir port ++ header.meta_dir
    meta ← read_json host.metas (stub_dir ++ meta_json ∷ []) disk
    resps ← load_responses stub_dir meta.response_files disk
    done (loaded header resps)

  unfoldable pub load_stubs : ℤ → List ImposterStubHeader → Node → Outcome (List Stub)
  unfolding load_stub
  load_stubs port [] disk = done []
  load_stubs port (header ∷ headers) disk = do
    stub ← load_stub port header disk
    stubs ← load_stubs port headers disk
    done (stub ∷ stubs)

  -- The .json files of the directory that can be read.
  unfoldable pub requests_in : ℤ → Entries → Node → List Request
  unfolding read_json
  requests_in port no_entries disk = []
  requests_in port (entry name node es) disk =
      let rest = requests_in port es disk in
      if has_suffix name json_suffix
      then if_read (read_json host.requests (requests_dir port ++ name ∷ []) disk) rest
      else rest

  -- The requests of the directory that os.ReadDir has read; a missing one holds none.
  unfoldable pub requests_listed : ℤ → Node → Outcome Entries → Outcome (List Request)
  unfolding requests_in sort_entries
  requests_listed port disk (done es) = done (requests_in port (sort_entries es) disk)
  requests_listed port disk (failed not_exist) = done []
  requests_listed port disk (failed broken) = failed broken
  requests_listed port disk (failed (repository e)) = failed (repository e)

  -- loadRequests
  unfoldable pub load_requests : ℤ → Node → Outcome (List Request)
  unfolding requests_listed read_dir
  load_requests port disk = requests_listed port disk (read_dir (requests_dir port) disk)

  -- requests, err := r.loadRequests(port); if err == nil { … }
  unfoldable pub requests_or_none : ℤ → Node → List Request
  unfolding load_requests
  requests_or_none port disk = elim (load_requests port disk) [ failed e ↦ [] | done reqs ↦ reqs ]

  -- readJSON of the header: a missing file is a missing imposter.
  unfoldable pub read_header : ℤ → Node → Outcome ImposterHeader
  unfolding read_json
  read_header port disk =
      elim (read_json host.headers (imposter_dir port ++ imposter_json ∷ []) disk) [
        | failed not_exist ↦ failed (repository (not_found port))
        | failed broken ↦ failed broken
        | failed (repository e) ↦ failed (repository e)
        | done header ↦ done header
      ]

  -- Get, getImposter
  unfoldable pub get_imposter : ℤ → Node → Outcome Imposter
  unfolding read_header load_stubs requests_or_none restored
  get_imposter port disk = do
    header ← read_header port disk
    stubs ← load_stubs port header.stubs disk
    done (restored port header stubs (requests_or_none port disk))

  -- The imposters of the directories that bear a number, with their ports.
  unfoldable pub imposters_in : Entries → Node → List (ℤ × Imposter)
  unfolding get_imposter
  imposters_in no_entries disk = []
  imposters_in (entry name (file t) es) disk = imposters_in es disk
  imposters_in (entry name (dir below) es) disk =
      let rest = imposters_in es disk in
      elim (atoi name) [
        | none ↦ rest
        | some port ↦ elim (get_imposter port disk) [
          | failed e ↦ rest
          | done imp ↦ (port, imp) ∷ rest
        ]
      ]

abbrev pub imposters_of : List (ℤ × Imposter) → List Imposter
imposters_of [] = []
imposters_of ((port, imp) ∷ rest) = imp ∷ imposters_of rest

-- All and LoadAll
unfoldable pub all_stored : Host → Node → Outcome (List Imposter)
unfolding imposters_in sort_imposters sort_entries read_dir
all_stored host disk = elim (read_dir [] disk) [
  | failed not_exist ↦ done []
  | failed broken ↦ failed broken
  | failed (repository e) ↦ failed (repository e)
  | done es ↦ done (sort_imposters (imposters_of (imposters_in host (sort_entries es) disk)))
]

-- Exists: os.Stat of the header
unfoldable pub is_stored : ℤ → Node → Bool
unfolding find_node
is_stored port disk = elim (find_node (imposter_dir port ++ imposter_json ∷ []) disk) [
  | failed e ↦ false
  | done node ↦ true
]
