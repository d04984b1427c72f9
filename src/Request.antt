-- ===== src/Request.antt =====
-- Write requests and their responses (src/request.rs).
use squeuelite_rs.Common.{Option, none, some, List, Text}
use squeuelite_rs.Common.Int.{ℤ}
use squeuelite_rs.Json.{Json}

pub record SqlOperation : Type 0 where
  pub sql : Text
  pub params : List Json

pub record WriteRequest : Type 0 where
  pub request_id : Text
  pub actor_id : Text
  pub run_id : Option Text
  pub idempotency_key : Option Text
  pub operations : List SqlOperation

pub data WriteStatus : Type 0 where
  committed failed : WriteStatus

pub record WriteResponse : Type 0 where
  pub request_id : Text
  pub status : WriteStatus
  pub commit_seq : Option ℤ
  pub error : Option Text

-- `WriteResponse::committed`
abbrev pub committed_response : Text → Option ℤ → WriteResponse
committed_response id seq = record {
  request_id = id;
  status = committed;
  commit_seq = seq;
  error = none;
}

-- `WriteResponse::failed`
abbrev pub failed_response : Text → Text → WriteResponse
failed_response id message = record {
  request_id = id;
  status = failed;
  commit_seq = none;
  error = some message;
}
