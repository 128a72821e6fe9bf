-- ===== src/Api/Options.antt =====
-- internal/api/handlers/imposters.go: parseOptions, buildBaseURL and applyOptionsWithRequest.
pub mod Filtered
use go_tartuffe.Prelude.{
  ℕ, ◌+◌, Text, codes, text_eq, Bool, true, false, not, Option, none, some, List, [], ◌∷◌, ◌++◌,
  if◌then◌else◌, is_blank, is_some, decimal_text, ℤ,
}
use go_tartuffe.Models.Stub.{Stub, Response}
use go_tartuffe.Models.Imposter.{Imposter}
use go_tartuffe.Repository.Filesystem.{itoa}
use go_tartuffe.Api.{ApiRequest}

pub record SerializeOptions : Type 0 where
  pub is_replayable : Bool
  pub removes_proxies : Bool

-- parseOptions
unfoldable pub parse_options : ApiRequest → SerializeOptions
parse_options r = record {
  is_replayable = text_eq r.replayable (codes "true");
  removes_proxies = text_eq r.remove_proxies (codes "true");
}

-- The options of a DELETE: replayable unless the query says something.
unfoldable pub delete_options : ApiRequest → SerializeOptions
unfolding parse_options
delete_options r =
    if is_blank r.replayable
    then record (parse_options r) { is_replayable = true }
    else parse_options r

abbrev pub no_options : SerializeOptions
no_options = record { is_replayable = false; removes_proxies = false }

-- buildBaseURL
unfoldable pub build_base_url : ApiRequest → Text
build_base_url r =
    let scheme =
      if is_blank r.forwarded_proto
      then (if r.is_tls then codes "https" else codes "http")
      else r.forwarded_proto in
    let host = if is_blank r.host then codes "localhost:2525" else r.host in
    scheme ++ codes "://" ++ host

unfoldable pub non_proxy_responses : List Response → List Response
non_proxy_responses [] = []
non_proxy_responses (r ∷ rs) =
    let rest = non_proxy_responses rs in if is_some r.proxy then rest else r ∷ rest

-- The stubs with the responses that are no proxies, without those that have no other.
unfoldable pub without_proxies : List Stub → List Stub
unfolding non_proxy_responses
without_proxies [] = []
without_proxies (s ∷ stubs) =
    let rest = without_proxies stubs in
    elim (non_proxy_responses s.responses) [
      | [] ↦ rest
      | r ∷ rs ↦ record s { responses = r ∷ rs } ∷ rest
    ]

-- The links of the stubs from the index on.
unfoldable pub with_links : Text → ℕ → List Stub → List Stub
with_links base i [] = []
with_links base i (s ∷ stubs) =
    record s { links = some (base ++ codes "/stubs/" ++ decimal_text i) }
    ∷ with_links base (i + 1) stubs

abbrev pub without_requests : Imposter → Imposter
without_requests imp = record imp {
  requests = [];
  tcp_requests = [];
  smtp_requests = [];
  grpc_requests = [];
  number_of_requests = none;
}

-- applyOptionsWithRequest; nil and empty lists of requests are one.
unfoldable pub apply_options : ApiRequest → SerializeOptions → Imposter → Imposter
unfolding without_proxies with_links build_base_url
apply_options r options imp =
    let base = build_base_url r ++ codes "/imposters/" ++ itoa imp.port in
    let shown = if options.is_replayable then without_requests imp else imp in
    let stubs = if options.removes_proxies then without_proxies imp.stubs else imp.stubs in
    record shown { stubs = if options.is_replayable then stubs else with_links base 0 stubs }
