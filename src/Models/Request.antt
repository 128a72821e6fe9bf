-- ===== src/Models/Request.antt =====
-- internal/models/request.go: the request that predicates are matched against. A Go map field may
-- be nil, which a key lookup tells apart from an empty map.
use go_tartuffe.Prelude.{Text, Assoc, Option}

pub record Request : Type 0 where
  pub request_from : Text
  pub method : Text
  pub path : Text
  pub query : Option (Assoc Text)
  pub raw_query : Text
  pub headers : Option (Assoc Text)
  pub body : Text
  pub form : Option (Assoc Text)
  pub ip : Text
  pub timestamp : Text
  pub mode : Text
