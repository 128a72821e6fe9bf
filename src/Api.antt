-- ===== src/Api.antt =====
-- internal/api/handlers: the requests to the management API and their replies, over the repository in
-- memory and the manager of the servers. The router gives a handler the parameters of the path.
-- The headers of a reply, and an imposter's own links and key, are not kept.
pub mod Options
pub mod Imposters
pub mod OneImposter
pub mod Stubs
use go_tartuffe.Prelude.{
  ℕ, Text, codes, Bool, true, false, Option, none, some, List, [], ◌∷◌, if◌then◌else◌, ℤ, pos,
  is_blank, find, put,
}
use go_tartuffe.Models.Imposter.{Imposter}
use go_tartuffe.Repository.{RepositoryError, not_found, conflict, invalid_index}
use go_tartuffe.Repository.Memory.{InMemory}
use go_tartuffe.Serving.{reset_request_count}
use go_tartuffe.Manager.{Server, Manager}

pub data ErrorCode : Type 0 where
  bad_data : ErrorCode
  resource_conflict : ErrorCode
  no_such_resource : ErrorCode
  invalid_json : ErrorCode

-- What response.WriteJSON and WriteError write, or the page that web.Render makes of imposters.
pub data Body : Type 0 where
  one : Imposter → Body
  several : List Imposter → Body
  nothing : Body
  error : ErrorCode → Body
  page : List Imposter → Body

pub record Reply : Type 0 where
  pub status : ℕ
  pub body : Body

abbrev pub refusal : ℕ → ErrorCode → Reply
refusal status code = record { status = status; body = error code }

-- The repository and the manager of the handlers. A server points to the imposter that the repository
-- has, whose value here is the current one; the manager's is the one at the start of the server.
pub record World : Type 0 where
  pub repository : InMemory
  pub manager : Manager

-- The reply to an error of the repository where a missing imposter is 404.
unfoldable pub repository_refusal : RepositoryError → Reply
repository_refusal (not_found port) = refusal 404 no_such_resource
repository_refusal e = refusal 500 bad_data

-- The part of an HTTP request that the handlers read: two query parameters, the scheme, the header
-- X-Forwarded-Proto, the host, and whether a page is asked for.
pub record ApiRequest : Type 0 where
  pub replayable : Text
  pub remove_proxies : Text
  pub is_tls : Bool
  pub forwarded_proto : Text
  pub host : Text
  pub accepts_html : Bool

-- srv.ResetRequestCount() for the server that GetServer finds on the port, if any
unfoldable pub reset_server : ℤ → Manager → Manager
unfolding reset_request_count
reset_server port m = elim (find port m.servers) [
  | none ↦ m
  | some srv ↦ record m {
    servers = put port (record srv { imposter = reset_request_count srv.imposter }) m.servers;
  }
]
