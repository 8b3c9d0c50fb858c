-- ===== src/Examples/Services.antt =====
-- The loader, the server and the process on a document with a query, a mutation and a cache rule.
use hse_graduate_qualificati.Base.{
  List, ℕ, ◌+◌, ◌≡◌, ◌∙◌, refl, sym, ap, ◌⊎◌, Bool, true, false, ◌==◌, none, some, [], ◌∷◌,
  contains, if◌then◌else◌,
}
use hse_graduate_qualificati.Base.Dict.{Dict, lookup, insert, has_key}
use hse_graduate_qualificati.Base.Exec.{
  Error, Result, dsl_error, ok, raise, value_error, ◌>>=◌, ◌>>◌,
}
use hse_graduate_qualificati.Base.Int.{pos}
use hse_graduate_qualificati.Base.Outcome.{returned, expected}
use hse_graduate_qualificati.Base.Sorted.{sort_items}
use hse_graduate_qualificati.Cache.Backend.{CacheBackend}
use hse_graduate_qualificati.Cache.Memory
use hse_graduate_qualificati.Cli.{make_backends}
use hse_graduate_qualificati.Cli.Served.{load-build_graphql_app}
use hse_graduate_qualificati.Cache.Memory.{MemoryBackend}
use hse_graduate_qualificati.Dsl.Loader.Checks.{
  check_operations, check_profile_refs, check_rule_profiles,
}
use hse_graduate_qualificati.Dsl.Loader.Load.{
  named, non_null, object_type, SdlSchema, Library, read_yaml, validate_document, read_sdl, load,
  registry_of,
}
use hse_graduate_qualificati.Dsl.Loader.Load.Accepted.{Passes, IsRegistryOf, load-IsRegistryOf}
use hse_graduate_qualificati.Dsl.Loader.Raises.{IsDslError}
use hse_graduate_qualificati.Dsl.Errors.{yaml_schema}
use hse_graduate_qualificati.Dsl.Loader.Raises.Whole.{IsForeign, load_raises}
use hse_graduate_qualificati.Dsl.Placeholder.Split.{split, pieces}
use hse_graduate_qualificati.Dsl.Placeholder.{match_arg}
use hse_graduate_qualificati.Dsl.Registry.{OperationRegistry}
use hse_graduate_qualificati.Dsl.Schema.{Document, CacheRule, one}
use hse_graduate_qualificati.Dsl.Value.{int}
use hse_graduate_qualificati.Examples.Ascii.{ascii}
use hse_graduate_qualificati.Examples.Memory.{profiles}
use hse_graduate_qualificati.Examples.Sql.{
  tables, user_spec, user_query, user_args, rename_spec, rename, columns,
}
use hse_graduate_qualificati.Examples.Ttl.{caches}
use hse_graduate_qualificati.Graphql.Server.{
  wrap_with_counters, CacheContext, Row, Answer, null_row, one_row,
}
use hse_graduate_qualificati.Graphql.Server.Contexts.{IsContextOf}
use hse_graduate_qualificati.Graphql.Server.Resolvers.Answers.{
  AnswersWith, query_resolver-AnswersWith,
}
use hse_graduate_qualificati.Graphql.Server.Resolvers.{
  query_resolver, Database, coerce_args, mutation_resolver,
}
use hse_graduate_qualificati.Graphql.Server.Resolvers.Transactions.{
  DatabaseLaws, Leaves, run_all, mutation_resolver-Leaves,
}
use hse_graduate_qualificati.Graphql.Server.Wiring.{
  uncounted, field_names, Surroundings, Fields, build_graphql_app,
}
use hse_graduate_qualificati.Graphql.Server.Wiring.Served.{
  behind_interceptor, build_graphql_app-query,
}
use hse_graduate_qualificati.Graphql.Server.Wiring.Total.{build_graphql_app-total}
use hse_graduate_qualificati.Sql.Builder.{Statement, MutationSql, build_select, build_mutation}

abbrev user_rule : CacheRule
user_rule = record {
  operations = "user" ∷ [];
  profile = "hot";
  cache_key = none;
  tags = some ("user:${args.id}" ∷ []);
}

abbrev document : Document
document = record {
  sidecar = record {
    listen = record { loopback = "127.0.0.1:8080" };
    boot = record { postgres_timeout = "30s" };
    cache = none;
  };
  data_sources = record { postgres = record { dsn = "postgres://db"; tables = tables } };
  queries = ("user", user_spec) ∷ [];
  mutations = ("rename", rename_spec) ∷ [];
  cache_profiles = profiles;
  cache_rules = ("r", user_rule) ∷ [];
}

abbrev schema : SdlSchema
schema name =
    if name == "User"
    then some (object_type (("id", non_null (named "ID")) ∷ ("name", named "String") ∷ []))
    else none

-- One file, that holds the document and its schema.
abbrev library : Library (Unit {0})
library = record {
  unicode = ascii;
  read_text =
      λ path. if path == "app" then returned "text" else expected "No such file or directory";
  safe_load = λ text. returned tt;
  model_validate = λ parsed. returned document;
  build_schema = λ text. returned schema;
  set_order = λ names. names;
}

abbrev registry : OperationRegistry
registry = registry_of document (("user", user_query) ∷ []) (("rename", rename) ∷ [])

loaded : load library "app" "app" ≡ ok registry
unfolding load ascii match_arg contains lookup insert sort_items has_key check_operations
loaded = refl

load-IsRegistryOf_example :
    (parsed : Unit {0}) × (d : Document) × (s : SdlSchema) × (read_yaml library "app" ≡ ok parsed)
    × (validate_document library parsed ≡ ok d)
    × (read_sdl library "app" ≡ ok s)
    × Passes library.set_order d s
    × IsRegistryOf library d registry
load-IsRegistryOf_example = load-IsRegistryOf library "app" "app" registry loaded

load_raises_example :
    IsDslError (dsl_error yaml_schema "gone" "No such file or directory")
    ⊎ IsForeign library "app" "gone" (dsl_error yaml_schema "gone" "No such file or directory")
unfolding load
load_raises_example =
    load_raises library "app" "gone" (dsl_error yaml_schema "gone" "No such file or directory") refl

-- A database that counts the statements that were run: the committed ones, and with them those of the
-- open transaction. Outside a transaction a statement commits itself.
pub record Counted : Type 0 where
  pub committed : ℕ
  pub pending : ℕ
  pub is_open : Bool

abbrev row : Row
row = ("user_id", int (pos 7)) ∷ ("user_name", int (pos 1)) ∷ []

abbrev ran : Counted → Counted
ran d =
    if d.is_open
    then record d { pending = d.pending + 1 }
    else record d { committed = d.committed + 1 }

abbrev pub database : Database Counted
database = record {
  acquire = λ d. (ok tt, record d { is_open = false });
  release = λ d. (ok tt, record d { is_open = false });
  begin = λ d. (ok tt, record d { pending = d.committed; is_open = true });
  commit = λ d. (ok tt, record d { committed = d.pending; is_open = false });
  rollback = λ d. (ok tt, record d { is_open = false });
  execute = λ s d. (ok tt, ran d);
  fetch = λ s d. (ok (row ∷ []), ran d);
}

abbrev one_more : Statement → ℕ → ℕ
one_more s n = n + 1

after_of : {A B : Type 0} (f : Counted → B) (x y : Result A × Counted) → x ≡ y → f y.1 ≡ f x.1
after_of {A} f x y h = sym (ap (λ (p : Result A × Counted). f p.1) h)

ran-committed : (d : Counted) → d.is_open ≡ true → (ran d).committed ≡ d.committed
ran-committed d inside = rw inside refl

ran_inside :
    {A : Type 0} (d : Counted) (x : Result A × Counted)
    → d.is_open ≡ true
    → (ran d).is_open ≡ x.1.is_open
    → (ran d).pending ≡ x.1.pending
    → (x.1.is_open ≡ true) × (x.1.pending ≡ d.pending + 1)
ran_inside d x inside h h' = (sym h ∙ rw inside refl, sym h' ∙ rw inside refl)

database_laws : DatabaseLaws database Counted.committed Counted.pending Counted.is_open one_more
database_laws = record {
  acquire = λ d. refl;
  acquired = λ d d' h. after_of Counted.is_open _ _ h;
  release = λ d. refl;
  begin = λ d. refl;
  begun = λ d d' idle h. (after_of Counted.is_open _ _ h, after_of Counted.pending _ _ h);
  execute = λ s d inside. ran-committed d inside;
  executed = λ s d d' inside h.
      ran_inside d (ok tt, d') inside (sym (after_of Counted.is_open _ _ h))
        (sym (after_of Counted.pending _ _ h));
  fetch = λ s d inside. ran-committed d inside;
  fetched = λ s d d' rows inside h.
      ran_inside d (ok rows, d') inside (sym (after_of Counted.is_open _ _ h))
        (sym (after_of Counted.pending _ _ h));
  rollback = λ d. refl;
  committed_all = λ d d' inside h. after_of Counted.committed _ _ h;
  commit_failed = λ d d' e inside h. cc (ap (λ (p : Result (Unit {0}) × Counted). p.0) h);
}

abbrev fresh : Counted
fresh = record { committed = 3; pending = 3; is_open = false }

mutation_resolver-Leaves_example :
    ((e : Error) × ((coerce_args ascii user_args >>= build_mutation rename) ≡ raise e)
      × (mutation_resolver database ascii rename user_args fresh ≡ (raise e, fresh)))
    ⊎ ((sql : MutationSql) × ((coerce_args ascii user_args >>= build_mutation rename) ≡ ok sql)
        × Leaves database Counted.committed Counted.pending Counted.is_open one_more database_laws 3
            (run_all one_more sql 3)
            (mutation_resolver database ascii rename user_args fresh))
mutation_resolver-Leaves_example =
    mutation_resolver-Leaves database Counted.committed Counted.pending Counted.is_open one_more
      database_laws ascii rename user_args fresh

-- The user with the number 7, and the state with one fetched statement more.
abbrev fetched : Answer
fetched = one_row (("id", int (pos 7)) ∷ ("name", int (pos 1)) ∷ [])

user_answered :
    query_resolver database ascii user_query user_args fresh
    ≡ (ok fetched, record { committed = 4; pending = 3; is_open = false })
unfolding query_resolver ascii has_key lookup split pieces match_arg
user_answered = refl

query_resolver-AnswersWith_example :
    (s : Statement) × (rows : List Row) × ((coerce_args ascii user_args >>= build_select user_query)
      ≡ ok s)
    × (database.fetch s (database.acquire fresh).1
        ≡ (ok rows, (database.fetch s (database.acquire fresh).1).1))
    × (record { committed = 4; pending = 3; is_open = false }
        ≡ (database.release (database.fetch s (database.acquire fresh).1).1).1)
    × AnswersWith one columns rows fetched
query_resolver-AnswersWith_example =
    query_resolver-AnswersWith database ascii user_query user_args fresh
      (record { committed = 4; pending = 3; is_open = false }) fetched user_answered

abbrev around : Surroundings Counted
around = record {
  unicode = ascii;
  codec = record { dumps = λ answer. []; loads = λ bytes. null_row };
  hexdigest = λ payload. payload;
  database = database;
  now = 5;
  later = 6;
  make_executable_schema = λ sdl queries mutations.
      if sdl == "text" then ok tt else raise (value_error "GraphQL Query field is not defined");
}

abbrev backends : Dict (CacheBackend (MemoryBackend caches))
backends = ("hot", Memory.backend caches) ∷ []

fields_total :
    (fields : Fields (MemoryBackend caches) Counted) × (build_graphql_app around true "text"
        registry
        (some backends)
      ≡ (around.make_executable_schema "text"
            (field_names registry.queries)
            (field_names registry.mutations)
          >> ok fields))
    × (field_names fields.query_type ≡ field_names registry.queries)
    × (field_names fields.mutation_type ≡ field_names registry.mutations)
unfolding has_key check_rule_profiles contains
fields_total =
    build_graphql_app-total around true "text" registry backends "hot" (λ q known. known) refl
      (refl, tt) refl ((refl, refl, (refl, tt)), tt)

build_graphql_app-total_example :
    (fields : Fields (MemoryBackend caches) Counted) × (build_graphql_app around true "text"
        registry
        (some backends)
      ≡ (around.make_executable_schema "text"
            (field_names registry.queries)
            (field_names registry.mutations)
          >> ok fields))
    × (field_names fields.query_type ≡ field_names registry.queries)
    × (field_names fields.mutation_type ≡ field_names registry.mutations)
unfolding has_key check_rule_profiles contains
build_graphql_app-total_example =
    build_graphql_app-total around true "text" registry backends "hot" (λ q known. known) refl
      (refl, tt) refl ((refl, refl, (refl, tt)), tt)

build_graphql_app-query_example :
    (ctx : CacheContext (CacheBackend (MemoryBackend caches))) × (lookup "user"
        fields_total.0.query_type
      ≡ some (
          if true
          then wrap_with_counters "user" (behind_interceptor around user_query ctx)
          else uncounted (behind_interceptor around user_query ctx)))
    × IsContextOf profiles backends "r" user_rule ctx
unfolding has_key check_profile_refs check_rule_profiles contains lookup
build_graphql_app-query_example =
    build_graphql_app-query around document registry true "text" backends fields_total.0 "r"
      user_rule "user" user_query refl refl (λ p known. known) refl (refl, tt) fields_total.1 refl
      refl refl

load-build_graphql_app_example :
    (made : Dict (CacheBackend (MemoryBackend caches))) × (make_backends
        (Memory.backend caches)
        (λ ps. Memory.backend caches)
        profiles
      ≡ some made)
    × (fields : Fields (MemoryBackend caches) Counted) × (build_graphql_app around true "text"
          registry
          (some made)
        ≡ (around.make_executable_schema "text"
              (field_names registry.queries)
              (field_names registry.mutations)
            >> ok fields))
unfolding has_key
load-build_graphql_app_example =
    load-build_graphql_app library around true "text" (Memory.backend caches)
      (λ ps. Memory.backend caches) "app" "app" registry "hot" loaded (refl, tt) refl
