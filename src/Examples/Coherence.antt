-- ===== src/Examples/Coherence.antt =====
-- The read and the write path over the in-memory backend, with a database of one text.
use hse_graduate_qualificati.Base.{
  String, ◌≡◌, refl, none, some, [], ◌∷◌, text_cases, inl, inr, hit_inv, contains, set_add,
}
use mathlib.Core.Path.{subst}
use hse_graduate_qualificati.Base.Dict.{lookup, insert}
use hse_graduate_qualificati.Base.Exec.{ok, Exec, traverse}
use hse_graduate_qualificati.Cache.Backend.{Bytes}
use hse_graduate_qualificati.Cache.Backend.Ideal.{Entry, entry_of}
use hse_graduate_qualificati.Cache.Coherence.{Queries, Answers, Coherent, Faithful, inner}
use hse_graduate_qualificati.Cache.Coherence.Reads.{CorrectRead, wrapped-CorrectRead, wrapped-read}
use hse_graduate_qualificati.Cache.Coherence.Mutations.{
  IsCoherent, Covers, wrap_mutation-IsCoherent,
}
use hse_graduate_qualificati.Cache.Interceptor.{Codec, Wrap, render_tags, wrapped}
use hse_graduate_qualificati.Cache.Invalidator.{after_mutation}
use hse_graduate_qualificati.Cache.Key.{make_key}
use hse_graduate_qualificati.Cache.Memory
use hse_graduate_qualificati.Cache.Memory.{MemoryBackend, backend}
use hse_graduate_qualificati.Cache.Memory.Models.{profile_lifetime}
use hse_graduate_qualificati.Cache.Memory.Refines.{memory_contract}
use hse_graduate_qualificati.Dsl.Registry.{ResolvedMutation}
use hse_graduate_qualificati.Dsl.Schema.{many, update, operation}
use hse_graduate_qualificati.Cache.Tag.{render_template}
use hse_graduate_qualificati.Dsl.Placeholder.{match_arg}
use hse_graduate_qualificati.Dsl.Placeholder.Split.{split, pieces}
use hse_graduate_qualificati.Dsl.Value.{Args}
use hse_graduate_qualificati.Examples.Ttl.{caches, laws}
use hse_graduate_qualificati.Examples.Memory.{
  profiles, hot, write_one, written_backend, holding, holding-Models,
}
use hse_graduate_qualificati.Graphql.Server.{wrap_mutation_with_invalidator}

abbrev same_bytes : Codec Bytes
same_bytes = record { dumps = λ v. v; loads = λ v. v }

abbrev one_key : String → String
one_key payload = "k1"

-- Every query of rule "r" with the tag "t1" reads the whole database.
abbrev queries : Queries Bytes Bytes
queries = record { Registered = λ w. (w.rule_name ≡ "r"); read = λ w args d. ok d }

abbrev users : Wrap
users = record {
  query = record {
    name = "users";
    type_name = "User";
    table = "users";
    columns = [];
    primary_key = "id";
    multiplicity = many;
    where_sql = none;
    where_args = [];
  };
  profile_name = "hot";
  profile = hot;
  rule_name = "r";
  tag_templates = "t1" ∷ [];
}

faithful : Faithful same_bytes one_key queries
faithful = record { one_answer = λ w w' args args' d r r' same. refl; loads-dumps = λ a. refl }

rendered : render_tags users [] ≡ ok ("t1" ∷ [])
unfolding traverse render_template split pieces match_arg
rendered = refl

holding-Coherent : Coherent same_bytes one_key queries holding (7 ∷ [])
unfolding make_key
holding-Coherent k e at = elim (text_cases "k1" k) [
  | inr differs ↦ cc (rw differs at at)
  | inl same ↦
      let new : Entry = entry_of 1 (profile_lifetime profiles "hot") write_one in
      let own : new ≡ e = hit_inv "k1" k new e none same at in
      subst (λ x. Answers same_bytes one_key queries k x (7 ∷ [])) own
        (record {
          wrap = users;
          args = [];
          registered = refl;
          key = same;
          rule = refl;
          tags = rendered;
          answer = refl;
        })
]

wrapped-CorrectRead_example :
    CorrectRead
      (backend caches)
      (memory_contract caches laws profiles)
      same_bytes
      one_key
      queries
      (ok (7 ∷ []))
      (7 ∷ [])
      (wrapped
        (backend caches)
        same_bytes
        one_key
        5
        6
        users
        (inner queries users)
        []
        (written_backend, 7 ∷ []))
unfolding make_key
wrapped-CorrectRead_example =
    wrapped-CorrectRead (backend caches) (memory_contract caches laws profiles) same_bytes one_key
      queries faithful users [] refl tt (7 ∷ []) holding 5 6 written_backend holding-Models
      holding-Coherent

wrapped-read_example :
    (wrapped
      (backend caches)
      same_bytes
      one_key
      5
      6
      users
      (inner queries users)
      []
      (written_backend, 7 ∷ [])).0
    ≡ ok (7 ∷ [])
unfolding make_key Memory.get Memory.set_with_indexes lookup insert
wrapped-read_example =
    wrapped-read (backend caches) (memory_contract caches laws profiles) same_bytes one_key queries
      faithful users [] refl (7 ∷ []) holding 5 6 written_backend (some (7 ∷ [])) (7 ∷ [])
      ("t1" ∷ []) tt holding-Models holding-Coherent refl rendered refl refl

abbrev rename : ResolvedMutation
rename = record {
  name = "rename";
  type_name = "User";
  table = "users";
  columns = [];
  primary_key = "id";
  kind = update;
  set_columns = none;
  where_sql = none;
  where_args = [];
  invalidates = some (record { strategy = operation; rules = some ("r" ∷ []); tags = none });
}

-- a mutation after which the database holds another text
abbrev change : Args → Exec Bytes Bytes
change args d = (ok (8 ∷ []), 8 ∷ [])

change-Covers :
    Covers
      (backend caches)
      (memory_contract caches laws profiles)
      same_bytes
      one_key
      queries
      rename.invalidates
      []
      (7 ∷ [])
      (8 ∷ [])
unfolding contains
change-Covers w args' registered = inr (rw registered)

wrap_mutation-IsCoherent_example :
    ((change [] (7 ∷ [])).0 ≡ ok (8 ∷ []))
    × ((wrap_mutation_with_invalidator
          (backend caches)
          9
          rename
          change
          []
          (written_backend, 7 ∷ [])).1.1
        ≡ (8 ∷ []))
    × IsCoherent
        (backend caches)
        (memory_contract caches laws profiles)
        same_bytes
        one_key
        queries
        (wrap_mutation_with_invalidator
          (backend caches)
          9
          rename
          change
          []
          (written_backend, 7 ∷ [])).1.0
        (8 ∷ [])
unfolding wrap_mutation_with_invalidator after_mutation Memory.del_by_rule Memory.evict_all
    Memory.index_keys lookup Memory.set_with_indexes insert set_add Memory.evict
wrap_mutation-IsCoherent_example =
    wrap_mutation-IsCoherent (backend caches) (memory_contract caches laws profiles) same_bytes
      one_key queries 9 rename change [] written_backend (7 ∷ []) (8 ∷ [])
      (record { ideal = holding; models = holding-Models; coherent = holding-Coherent })
      change-Covers refl
