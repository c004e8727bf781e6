-- ===== src/GoogleApi/HttpRule/Fields.antt =====
-- The fields of `HttpRule` that do not hold rules.
use sample_grpc_service.Prelude.{String, Option, none}
use sample_grpc_service.Partial.{get_or}
use sample_grpc_service.GoogleApi.CustomHttpPattern
use sample_grpc_service.GoogleApi.CustomHttpPattern.{CustomHttpPattern, CustomHttpPatternPartial}
use mathlib.Core.Option

pub record Plain : Type 0 where
  pub selector : String
  pub get : Option String
  pub put : Option String
  pub post : Option String
  pub delete : Option String
  pub patch : Option String
  pub custom : Option CustomHttpPattern
  pub body : String
  pub response_body : String

pub record PlainPartial : Type 0 where
  pub selector : Option String
  pub get : Option String
  pub put : Option String
  pub post : Option String
  pub delete : Option String
  pub patch : Option String
  pub custom : Option CustomHttpPatternPartial
  pub body : Option String
  pub response_body : Option String

unfoldable pub plain_base : Plain
plain_base = record {
  selector = "";
  get = none;
  put = none;
  post = none;
  delete = none;
  patch = none;
  custom = none;
  body = "";
  response_body = "";
}

unfoldable pub plain_partial : PlainPartial → Plain
plain_partial o = record {
  selector = get_or "" o.selector;
  get = o.get;
  put = o.put;
  post = o.post;
  delete = o.delete;
  patch = o.patch;
  custom = Option.map CustomHttpPattern.from_partial o.custom;
  body = get_or "" o.body;
  response_body = get_or "" o.response_body;
}
