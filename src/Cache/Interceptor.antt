-- ===== src/Cache/Interceptor.antt =====
-- framework/cache/interceptor.py: the resolver that `wrap_query` returns, over any backend. The inner
-- resolver works on the database's state; a payload is the JSON text of its result.
use hse_graduate_qualificati.Base.{ℕ, String, none, some, List}
use hse_graduate_qualificati.Base.Exec.{Result, ok, raise, Exec, traverse}
use hse_graduate_qualificati.Cache.Backend.{Bytes, CacheBackend, Write}
use hse_graduate_qualificati.Cache.Key.{make_key}
use hse_graduate_qualificati.Cache.Tag.{render_template}
use hse_graduate_qualificati.Dsl.Registry.{ResolvedQuery}
use hse_graduate_qualificati.Dsl.Schema.{CacheProfile}
use hse_graduate_qualificati.Dsl.Value.{Args}

-- `json.dumps(result, …).encode("utf-8")` and `json.loads(cached)`, for the results `A` of a resolver.
pub record Codec (A : Type 0) : Type 0 where
  pub dumps : A → Bytes
  pub loads : Bytes → A

-- What `wrap_query` closes over, less the inner resolver.
pub record Wrap : Type 0 where
  pub query : ResolvedQuery
  pub profile_name : String
  pub profile : CacheProfile
  pub rule_name : String
  pub tag_templates : List String

-- `make_key(query.name, args)`, of the raw arguments
abbrev pub key_of : (String → String) → Wrap → Args → String
key_of hexdigest w args = make_key hexdigest w.query.name args

abbrev pub render_tags : Wrap → Args → Result (List String)
render_tags w args = traverse (λ tpl. render_template tpl args) w.tag_templates

module _ {S A : Type 0} (B : CacheBackend S) (codec : Codec A) (hexdigest : String → String) where
  -- the arguments of the call of `set_with_indexes`
  abbrev pub write_of : Wrap → Args → A → List String → Write
  write_of w args result tags = record {
    profile_name = w.profile_name;
    key = key_of hexdigest w args;
    value = codec.dumps result;
    ttl = w.profile.ttl_seconds;
    rule = w.rule_name;
    tags = tags;
  }

  -- the end of a miss, when the inner resolver has come back
  unfoldable pub store_result : ℕ → Wrap → Args → A → S → Result A × S
  store_result now w args result s = elim (render_tags w args) [
    | raise e ↦ (raise e, s)
    | ok tags ↦
        let (stored, s') = B.set_with_indexes now (write_of w args result tags) s in
        elim stored [ raise e ↦ (raise e, s') | ok _ ↦ (ok result, s') ]
  ]

module _ {S D A : Type 0} (B : CacheBackend S) (codec : Codec A) (hexdigest : String → String) where
  -- a miss: the inner resolver, then the write
  unfoldable pub on_miss : ℕ → Wrap → (Args → Exec D A) → Args → S × D → Result A × (S × D)
  unfolding store_result
  on_miss now w inner args (s, d) =
      let (answer, d') = inner args d in
      elim answer [
        | raise e ↦ (raise e, (s, d'))
        | ok result ↦
            let (r, s') = store_result B codec hexdigest now w args result s in (r, (s', d'))
      ]

  -- `now` is the time of the lookup, `later` that of the write.
  unfoldable pub wrapped : ℕ → ℕ → Wrap → (Args → Exec D A) → Args → S × D → Result A × (S × D)
  wrapped now later w inner args (s, d) =
      let (cached, s') = B.get now (key_of hexdigest w args) s in
      elim cached [
        | raise e ↦ (raise e, (s', d))
        | ok payload ↦ elim payload [
          | none ↦ on_miss later w inner args (s', d)
          | some bytes ↦ (ok (codec.loads bytes), (s', d))
        ]
      ]
