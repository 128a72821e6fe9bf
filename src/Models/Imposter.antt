-- ===== src/Models/Imposter.antt =====
-- internal/models/imposter.go: an imposter, by the fields that the repository and the servers read
-- or write. The configuration of gRPC and TLS is carried as it is given.
use go_tartuffe.Prelude.{Assoc, Text, Bool, Option, List, ℤ}
use go_tartuffe.Value.{Fields}
use go_tartuffe.Models.Request.{Request}
use go_tartuffe.Models.Stub.{Stub, Response}
use go_tartuffe.Models.Smtp.{SmtpRequest}

pub record TcpRequest : Type 0 where
  pub request_from : Text
  pub payload : Text
  pub timestamp : Text

pub record GrpcRequest : Type 0 where
  pub request_from : Text
  pub service : Text
  pub method : Text
  pub message : Fields
  pub metadata : Assoc (List Text)
  pub timestamp : Text

pub record Imposter : Type 0 where
  pub port : ℤ
  pub protocol : Text
  pub name : Text
  pub host : Text
  pub mode : Text
  pub record_requests : Bool
  pub allow_cors : Bool
  pub stubs : List Stub
  pub default_response : Option Response
  pub requests : List Request
  pub tcp_requests : List TcpRequest
  pub smtp_requests : List SmtpRequest
  pub grpc_requests : List GrpcRequest
  pub number_of_requests : Option ℤ
