-- ===== src/Dsl/Registry.antt =====
-- framework/dsl/registry.py: what the loader hands to the server.
use hse_graduate_qualificati.Base.{String, Option, List}
use hse_graduate_qualificati.Base.Dict.{Dict}
use hse_graduate_qualificati.Dsl.Schema.{
  CacheProfile, CacheRule, InvalidatesSpec, TableMapping, Multiplicity, MutationKind,
}

pub record ResolvedQuery : Type 0 where
  pub name : String
  pub type_name : String
  pub table : String
  pub columns : Dict String
  pub primary_key : String
  pub multiplicity : Multiplicity
  pub where_sql : Option String
  pub where_args : List String

pub record ResolvedMutation : Type 0 where
  pub name : String
  pub type_name : String
  pub table : String
  pub columns : Dict String
  pub primary_key : String
  pub kind : MutationKind
  pub set_columns : Option (Dict String)
  pub where_sql : Option String
  pub where_args : List String
  pub invalidates : Option InvalidatesSpec

pub record OperationRegistry : Type 0 where
  pub queries : Dict ResolvedQuery
  pub mutations : Dict ResolvedMutation
  pub tables : Dict TableMapping
  pub cache_profiles : Dict CacheProfile
  pub cache_rules : Dict CacheRule
