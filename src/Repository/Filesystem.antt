-- ===== src/Repository/Filesystem.antt =====
-- internal/repository/filesystem.go: imposters as JSON files below a data directory.
--   <port>/imposter.json                              the header
--   <port>/stubs/<name>/meta.json, …/responses/<name>.json   a stub
--   <port>/requests/<name>.json                       the recorded requests
-- JSON, the clock and the process are a `Host`. A relative path in a header is the list of its
-- names; the JSON of the header joins them with slashes. The mutex makes each operation one step.
pub mod Disk
pub mod Names
pub mod Actions
pub mod Stubs
pub mod Below
pub mod Reading
pub mod Saved
pub mod Loaded
pub mod Frame
pub mod Writing
pub mod Several
pub mod Operations
pub mod Header
pub mod Added
pub mod Loads
pub mod Inserted
use go_tartuffe.Prelude.{
  ℕ, ◌+◌, ◌-◌, ◌^◌, Text, codes, text_eq, Bool, List, [], ◌∷◌, ◌++◌, if◌then◌else◌, ltb, ℤ, pos,
  negsuc, decimal_text, Option,
}
use go_tartuffe.Models.Predicate.{Predicate}
use go_tartuffe.Models.Request.{Request}
use go_tartuffe.Models.Stub.{Response}
use go_tartuffe.Models.Imposter.{Imposter}
use go_tartuffe.Repository.Filesystem.Disk.{Node, FilePath}

pub record StubMeta : Type 0 where
  pub response_files : List FilePath
  pub order_with_repeats : List ℕ
  pub next_index : ℤ

pub record ImposterStubHeader : Type 0 where
  pub predicates : List Predicate
  pub meta_dir : FilePath

pub record ImposterHeader : Type 0 where
  pub protocol : Text
  pub port : ℤ
  pub name : Text
  pub record_requests : Bool
  pub stubs : List ImposterStubHeader

-- json.MarshalIndent and json.Unmarshal on a type; `none` is an error.
pub record Codec (A : Type 0) : Type 0 where
  pub marshal : A → Option Text
  pub unmarshal : Text → Option A

-- The clock gives the milliseconds and the timestamp at the time of the n-th name.
pub record Host : Type 0 where
  pub headers : Codec ImposterHeader
  pub metas : Codec StubMeta
  pub responses : Codec Response
  pub requests : Codec Request
  pub imposters : Codec Imposter
  pub epoch : ℕ → ℕ
  pub now : ℕ → Text
  pub pid : ℕ

-- The data directory, and the bit pattern of the int64 counter.
pub record Filesystem : Type 0 where
  pub disk : Node
  pub counter : ℕ

-- strconv.Itoa
unfoldable pub itoa : ℤ → Text
itoa (pos n) = decimal_text n
itoa (negsuc n) = b'-' ∷ decimal_text (n + 1)

-- The verb %d on the bit pattern of an int64.
unfoldable pub counter_text : ℕ → Text
unfolding itoa
counter_text c = if ltb c (2 ^ 63) then decimal_text c else b'-' ∷ decimal_text (2 ^ 64 - c)

abbrev pub imposter_json : Text
imposter_json = codes "imposter.json"

abbrev pub stubs_name : Text
stubs_name = codes "stubs"

abbrev pub requests_name : Text
requests_name = codes "requests"

abbrev pub responses_name : Text
responses_name = codes "responses"

abbrev pub meta_json : Text
meta_json = codes "meta.json"

abbrev pub json_suffix : Text
json_suffix = codes ".json"

abbrev pub tmp_suffix : Text
tmp_suffix = codes ".tmp"

-- imposterDir, stubsDir and requestsDir
abbrev pub imposter_dir : ℤ → FilePath
imposter_dir port = itoa port ∷ []

abbrev pub stubs_dir : ℤ → FilePath
stubs_dir port = itoa port ∷ stubs_name ∷ []

abbrev pub requests_dir : ℤ → FilePath
requests_dir port = itoa port ∷ requests_name ∷ []
