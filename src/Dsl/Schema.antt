-- ===== src/Dsl/Schema.antt =====
-- framework/dsl/schema.py: the pydantic models, field by field. A `Literal` of texts is a type with
-- those texts as constructors. Of the bounds that pydantic checks, `ge=0` is the type ℕ; `gt=0` and
-- `min_length=1` are not part of the types. `HasRoom` in Cache/Memory/Refines.antt is the one for
-- `max_entries`.
use hse_graduate_qualificati.Base.{ℕ, String, Option, none, some, List, [], Bool, true, false}
use hse_graduate_qualificati.Base.Dict.{Dict}
use hse_graduate_qualificati.Base.Int.{ℤ}

pub record SidecarListen : Type 0 where
  pub loopback : String

pub record SidecarBoot : Type 0 where
  pub postgres_timeout : String

pub record RedisCacheConfig : Type 0 where
  pub circuit_threshold : ℤ
  pub circuit_cooldown : String

pub record SidecarCacheConfig : Type 0 where
  pub redis : Option RedisCacheConfig

pub record SidecarConfig : Type 0 where
  pub listen : SidecarListen
  pub boot : SidecarBoot
  pub cache : Option SidecarCacheConfig

pub record TableMapping : Type 0 where
  pub table : String
  pub primary_key : String
  pub columns : Dict String

-- `type` is the literal "postgres".
pub record PostgresSource : Type 0 where
  pub dsn : String
  pub tables : Dict TableMapping

pub record DataSources : Type 0 where
  pub postgres : PostgresSource

pub data Multiplicity : Type 0 where
  one many : Multiplicity

pub record QuerySpec : Type 0 where
  pub type_name : String
  pub source : String
  pub multiplicity : Multiplicity
  pub where_text : Option String

pub data Strategy : Type 0 where
  ttl operation tag : Strategy

pub record InvalidatesSpec : Type 0 where
  pub strategy : Strategy
  pub rules : Option (List String)
  pub tags : Option (List String)

pub data MutationKind : Type 0 where
  insert update delete : MutationKind

pub record MutationSpec : Type 0 where
  pub type_name : String
  pub source : String
  pub kind : MutationKind
  pub set_values : Option (Dict String)
  pub where_text : Option String
  pub invalidates : Option InvalidatesSpec

pub record InvalidationConfig : Type 0 where
  pub double_delete_delay_ms : ℕ

pub data BackendKind : Type 0 where
  redis in_memory : BackendKind

pub data Eviction : Type 0 where
  lru lfu no_eviction : Eviction

pub record CacheProfile : Type 0 where
  pub backend : BackendKind
  pub eviction : Eviction
  pub ttl_seconds : ℕ
  pub max_entries : Option ℕ
  pub invalidation : Option InvalidationConfig

pub record CacheRule : Type 0 where
  pub operations : List String
  pub profile : String
  pub cache_key : Option String
  pub tags : Option (List String)

-- `version` is the literal 1.
pub record Document : Type 0 where
  pub sidecar : SidecarConfig
  pub data_sources : DataSources
  pub queries : Dict QuerySpec
  pub mutations : Dict MutationSpec
  pub cache_profiles : Dict CacheProfile
  pub cache_rules : Dict CacheRule

-- `x == "redis"` and the like, on the literals' types.
abbrev pub is_redis : BackendKind → Bool
is_redis redis = true
is_redis in_memory = false

abbrev pub is_in_memory : BackendKind → Bool
is_in_memory redis = false
is_in_memory in_memory = true

-- `xs or []`
abbrev pub or_empty : Option (List String) → List String
or_empty none = []
or_empty (some xs) = xs
