-- ===== src/Tests/FileRuns.antt =====
-- internal/repository/filesystem.go: the theorems on a small data directory.
use go_tartuffe.Prelude.{
  ◌+◌, Text, codes, text_eq, false, [], ◌∷◌, ◌++◌, length, Option, some, none, if◌then◌else◌, ℤ,
  pos, ◌≡◌, ◌≢◌, refl, arith, decimal_text, digits_before,
}
use go_tartuffe.Models.Stub.{Stub, Response}
use go_tartuffe.Models.Imposter.{Imposter}
use go_tartuffe.Repository.Memory.{with_stub}
use go_tartuffe.Repository.Filesystem.{
  Codec, Host, ImposterHeader, imposter_dir, imposter_json, stubs_name, tmp_suffix, counter_text,
  itoa,
}
use go_tartuffe.Repository.Filesystem.Disk.{
  Node, file, dir, no_entries, entry, done, failed, not_exist, find_node, lookup_entry, read_file,
  child,
}
use go_tartuffe.Repository.Filesystem.Actions.{name_at, read_json}
use go_tartuffe.Repository.Filesystem.Disk.Graft.{IsClear, sub}
use go_tartuffe.Repository.Filesystem.Stubs.{no_responses, with_response}
use go_tartuffe.Repository.Filesystem.Reading.{
  read_header, restored, requests_or_none, get_imposter,
}
use go_tartuffe.Repository.Filesystem.Saved.{ReadsBack, AllReadBack, on, meta_of}
use go_tartuffe.Repository.Filesystem.Loaded.{header_at}
use go_tartuffe.Repository.Filesystem.Several.{used, headers_at, kept_stub, StubsReadBack}
use go_tartuffe.Repository.Filesystem.Added.{kept_imposter, get-add_imposter}
use go_tartuffe.Repository.Filesystem.Inserted.{get-insert_stub}
use go_tartuffe.Repository.Filesystem.Loads.{IsStored}
use go_tartuffe.Repository.Filesystem.Operations.{
  add_imposter, insert_stub, header_of, with_header, is_beyond,
}
use go_tartuffe.Tests.{response_with, stub_of, imposter_on}

abbrev scripted : Stub
scripted = stub_of [] (response_with (codes "a") (pos 2) ∷ []) false

abbrev imposter : Imposter
imposter = imposter_on (pos 80) (scripted ∷ [])

-- The number of an element of a list whose JSON is that number; the rest cannot be read.
abbrev numbered {ℓ} : {A : Type ℓ} → A → A → Text → Option A
numbered a b [] = none
numbered a b (c ∷ t) = if text_eq (c ∷ t) (codes "1") then some a else some b

abbrev unread : {A : Type 0} → Codec A
unread = record { marshal = λ a. none; unmarshal = λ t. none }

abbrev response_codec : Codec Response
response_codec = record {
  marshal = λ r. some r.inject;
  unmarshal = λ t. some (response_with t (pos 2));
}

-- The clock and the process, by which the names of the files are known.
abbrev clock : Host
clock = record {
  headers = unread;
  metas = unread;
  responses = response_codec;
  requests = unread;
  imposters = unread;
  epoch = λ n. 7;
  now = λ n. [];
  pid = 5;
}

abbrev first_header : ImposterHeader
first_header = header_of imposter (header_at clock 0 scripted ∷ [])

abbrev bare_header : ImposterHeader
bare_header = header_of imposter []

abbrev host : Host
host = record clock {
  headers = record {
    marshal = λ h. some (decimal_text (length h.stubs));
    unmarshal = numbered first_header bare_header;
  };
  metas = record {
    marshal = λ m. some (decimal_text (length m.response_files));
    unmarshal = numbered (meta_of clock 1 0 scripted.responses no_responses) no_responses;
  };
}

free : find_node (imposter_dir (pos 80)) (dir no_entries) ≡ failed not_exist
unfolding find_node lookup_entry
free = refl

scripted_back : StubsReadBack host 0 (scripted ∷ [])
unfolding StubsReadBack AllReadBack decimal_text digits_before meta_of with_response text_eq name_at
    counter_text itoa
scripted_back = ((((codes "a", refl, refl), tt), (codes "1", refl, refl)), tt)

header_back : ReadsBack host.headers (header_of imposter (headers_at host 0 imposter.stubs))
unfolding headers_at decimal_text digits_before text_eq name_at counter_text itoa
header_back = (codes "1", refl, refl)

get-add_imposter_example :
    ((add_imposter host imposter (on (dir no_entries) 0)).0 ≡ done tt)
    × (get_imposter host (pos 80) (add_imposter host imposter (on (dir no_entries) 0)).1.disk
        ≡ done (kept_imposter imposter))
    × ((j : ℤ)
        → j ≢ pos 80
        → get_imposter host j (add_imposter host imposter (on (dir no_entries) 0)).1.disk
          ≡ get_imposter host j (dir no_entries))
get-add_imposter_example =
    get-add_imposter host imposter no_entries 0 free scripted_back header_back
      (unfold used in omega arith)

-- The directory of an imposter without stubs.
abbrev bare_disk : Node
bare_disk =
    dir (entry (codes "80") (dir (entry imposter_json (file (codes "0")) no_entries)) no_entries)

bare_reads : read_header host (pos 80) bare_disk ≡ done bare_header
unfolding read_header read_json read_file find_node lookup_entry text_eq itoa decimal_text
    digits_before
bare_reads = refl

bare_fresh :
    (name : Text)
    → IsClear (itoa (pos 80) ∷ stubs_name ∷ name ∷ []) bare_disk
      × (sub (itoa (pos 80) ∷ stubs_name ∷ name ∷ []) bare_disk ≡ dir no_entries)
unfolding IsClear sub child lookup_entry text_eq itoa decimal_text digits_before
bare_fresh name = (tt, refl)

bare_no_tmp :
    find_node (imposter_dir (pos 80) ++ (imposter_json ++ tmp_suffix) ∷ []) bare_disk
    ≡ failed not_exist
unfolding find_node lookup_entry text_eq itoa decimal_text digits_before
bare_no_tmp = refl

bare-IsStored : IsStored host (pos 80) bare_header [] bare_disk 0
bare-IsStored = record {
  reads = bare_reads;
  loads = tt;
  older = tt;
  fresh = λ d le small. bare_fresh (name_at host (d + 1));
  no_tmp = λ below e. ground (arith, bare_no_tmp, e);
}

grown_back :
    ReadsBack host.headers
      (record bare_header { stubs = with_header (header_at host 0 scripted) (pos 0) [] })
unfolding with_header is_beyond decimal_text digits_before text_eq name_at counter_text itoa
grown_back = (codes "1", refl, refl)

get-insert_stub_example :
    (get_imposter host (pos 80) bare_disk
      ≡ done (restored (pos 80) bare_header [] (requests_or_none host (pos 80) bare_disk)))
    × ((insert_stub host (pos 80) scripted (pos 0) (on bare_disk 0)).0 ≡ done tt)
    × (get_imposter host
          (pos 80)
          (insert_stub host (pos 80) scripted (pos 0) (on bare_disk 0)).1.disk
        ≡ done (
            restored
              (pos 80)
              bare_header
              (with_stub (kept_stub scripted) (pos 0) [])
              (requests_or_none host (pos 80) bare_disk)))
    × ((j : ℤ)
        → j ≢ pos 80
        → get_imposter host j (insert_stub host (pos 80) scripted (pos 0) (on bare_disk 0)).1.disk
          ≡ get_imposter host j bare_disk)
unfolding StubsReadBack
get-insert_stub_example =
    get-insert_stub host (pos 80) bare_header [] bare_disk 0 scripted (pos 0) bare-IsStored
      scripted_back.0 grown_back (omega arith)
