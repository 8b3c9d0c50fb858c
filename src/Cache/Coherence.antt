-- ===== src/Cache/Coherence.antt =====
-- The read path of interceptor.py and the write path of server.py's mutation wrapper over one cache,
-- one request at a time: the cached answers are the database's.
pub mod Reads
pub mod Mutations
use hse_graduate_qualificati.Base.{ℕ, String, ◌≡◌, Option, none, some, List, contains, true}
use hse_graduate_qualificati.Base.Exec.{Result, ok, raise, Exec, traverse}
use hse_graduate_qualificati.Cache.Backend.Ideal.{Ideal, Entry}
use hse_graduate_qualificati.Cache.Interceptor.{Codec, Wrap, key_of, render_tags}
use hse_graduate_qualificati.Cache.Tag.{render_template}
use hse_graduate_qualificati.Dsl.Schema.{InvalidatesSpec, Strategy, ttl, operation, tag, or_empty}
use hse_graduate_qualificati.Dsl.Value.{Args}

-- The queries of a server with a cache: those that are wrapped, and what each answers from the state
-- `D` of the database.
pub record Queries (D A : Type 0) : Type 1 where
  pub Registered : Wrap → Type 0
  pub read : Wrap → Args → D → Result A

-- `inner` for a query: it leaves the database as it is.
abbrev pub inner : {D A : Type 0} → Queries D A → Wrap → Args → Exec D A
inner Q w args d = (Q.read w args d, d)

module _ {D A : Type 0} (codec : Codec A) (hexdigest : String → String) (Q : Queries D A) where
  -- An entry of the cache is what one of the queries answers from the database as it is now, under
  -- that query's rule and rendered tags.
  pub record Answers (k : String) (e : Entry) (d : D) : Type 0 where
    pub wrap : Wrap
    pub args : Args
    pub registered : Q.Registered wrap
    pub key : key_of hexdigest wrap args ≡ k
    pub rule : e.rule ≡ some wrap.rule_name
    pub tags : render_tags wrap args ≡ ok e.tags
    pub answer : Q.read wrap args d ≡ ok (codec.loads e.value)

  abbrev pub Coherent : Ideal → D → Type 0
  Coherent m d = (k : String) (e : Entry) → m k ≡ some e → Answers k e d

  -- What the digest and the JSON round trip are relied on for: queries with one key have one answer,
  -- and a stored answer is read back.
  pub record Faithful : Type 0 where
    pub one_answer :
        (w w' : Wrap) (args args' : Args) (d : D)
        → Q.Registered w
        → Q.Registered w'
        → key_of hexdigest w args ≡ key_of hexdigest w' args'
        → Q.read w args d ≡ Q.read w' args' d
    pub loads-dumps : (a : A) → codec.loads (codec.dumps a) ≡ a
