-- ===== src/Core/Config.antt =====
-- The configuration that the TOML file is read into (crates/infractl-core/src/config.rs). A hash map
-- is an association list: the code looks names up in it, and iterates in an unspecified order.
use btc_infra_tools.Base.{Option, none, some, List, String, lookup}

pub record ServiceConfig : Type 0 where
  pub manager : String
  pub unit : Option String
  pub compose_file : Option String
  pub compose_override : Option String
  pub project : Option String
  pub env_file : Option String
  pub machine : Option String
  pub depends_on : Option (List String)

pub record BelterConfig : Type 0 where
  pub service : Option (List (String × ServiceConfig))

unfoldable pub service_by_name : BelterConfig → String → Option ServiceConfig
service_by_name config name = elim config.service [
  | none ↦ none
  | some services ↦ lookup name services
]
