-- ===== src/Cache/Memory/Models.antt =====
-- When a `MemoryBackend` stands for an ideal cache, and what keeps that so when a method only takes
-- keys away.
use hse_graduate_qualificati.Base.{
  ℕ, ◌<◌, String, ◌≡◌, refl, true, Option, none, some, ◌==◌, eq_refl, arith, if◌then◌else◌,
  text_cases, inl, inr, ◌∙◌, sym,
}
use hse_graduate_qualificati.Base.Dict.{
  Dict, lookup, insert, has_key, lookup-insert, has_key-insert,
}
use hse_graduate_qualificati.Cache.Backend.{Bytes}
use hse_graduate_qualificati.Cache.Backend.Ideal.{
  Ideal, Entry, Serves, Serves-same, has_rule, has_tag,
}
use hse_graduate_qualificati.Cache.Ttl.{TtlCaches, peek, SameConfig}
use hse_graduate_qualificati.Cache.Memory.{MemoryBackend, cache_ttl}
use hse_graduate_qualificati.Cache.Memory.Index.{lists}
use hse_graduate_qualificati.Dsl.Schema.{CacheProfile}

-- The time to live of a profile's cache.
abbrev pub profile_lifetime : Dict CacheProfile → String → Option ℕ
profile_lifetime profiles name = elim (lookup name profiles) [
  | none ↦ none
  | some prof ↦ cache_ttl prof
]

module _ (T : TtlCaches) where
  -- A cache with the attributes of another one, which shows no more than that one.
  pub record ShowsLess (c' c : T.Cache) : Type 0 where
    pub config : SameConfig T c' c
    pub shown :
        (now : ℕ) (k : String) (v : Bytes) → peek T now k c' ≡ some v → peek T now k c ≡ some v

  pub ShowsLess-refl : (c : T.Cache) → ShowsLess c c
  ShowsLess-refl c = record { config = (refl, refl); shown = λ now k v h. h }

  pub ShowsLess-trans : (a b c : T.Cache) → ShowsLess a b → ShowsLess b c → ShowsLess a c
  ShowsLess-trans a b c f g = record {
    config = (f.config.0 ∙ g.config.0, f.config.1 ∙ g.config.1);
    shown = λ now k v h. g.shown now k v (f.shown now k v h);
  }

  -- The same profiles, and each cache shows no more than before.
  pub record Fewer (new old : Dict T.Cache) : Type 0 where
    pub names : (p : String) → has_key p old ≡ true → has_key p new ≡ true
    pub origin :
        (p : String) (c' : T.Cache)
        → lookup p new ≡ some c'
        → (c : T.Cache) × (lookup p old ≡ some c) × ShowsLess c' c

  pub Fewer-refl : (caches : Dict T.Cache) → Fewer caches caches
  Fewer-refl caches = record { names = λ p h. h; origin = λ p c h. (c, h, ShowsLess-refl c) }

  pub Fewer-trans : (a b c : Dict T.Cache) → Fewer a b → Fewer b c → Fewer a c
  Fewer-trans a b c f g = record {
    names = λ p h. f.names p (g.names p h);
    origin = λ p x h.
        let (y, in_b, less) = f.origin p x h in
        let (z, in_c, less') = g.origin p y in_b in (z, in_c, ShowsLess-trans x y z less less');
  }

  Fewer-origin :
      (p q : String) (c c' d : T.Cache) (caches : Dict T.Cache)
      → lookup p caches ≡ some c
      → ShowsLess c' c
      → (if p == q then some c' else lookup q caches) ≡ some d
      → (e : T.Cache) × (lookup q caches ≡ some e) × ShowsLess d e
  Fewer-origin p q c c' d caches here less h = elim (text_cases p q) [
    | inl same ↦
        let e : c' ≡ d = cc (rw (same, eq_refl q) at h) in (c, rw (← same) here, rw (← e) less)
    | inr differs ↦ (d, rw differs at h, ShowsLess-refl d)
  ]

  pub Fewer-insert :
      (p : String) (c c' : T.Cache) (caches : Dict T.Cache)
      → lookup p caches ≡ some c
      → ShowsLess c' c
      → Fewer (insert p c' caches) caches
  Fewer-insert p c c' caches here less = record {
    names = λ q h. rw (has_key-insert, h) (ground arith);
    origin = λ q d h. Fewer-origin p q c c' d caches here less (rw lookup-insert at h);
  }

module _ (T : TtlCaches) (profiles : Dict CacheProfile) where
  pub record Models (b : MemoryBackend T) (m : Ideal) : Type 0 where
    -- every key's profile has a cache
    pub placed : (k p : String) → lookup k b.key_profile ≡ some p → has_key p b.caches ≡ true
    -- every cache has its profile's time to live, and room for an entry
    pub configured :
        (p : String) (c : T.Cache)
        → lookup p b.caches ≡ some c
        → (T.ttl c ≡ profile_lifetime profiles p) × (0 < T.maxsize c)
    -- what can be read is what the ideal cache serves
    pub served :
        (now : ℕ) (k p : String) (c : T.Cache) (v : Bytes)
        → lookup k b.key_profile ≡ some p
        → lookup p b.caches ≡ some c
        → peek T now k c ≡ some v
        → Serves m now k v
    -- a key that can be read is listed under its entry's rule and tags
    pub ruled :
        (k p r : String) (e : Entry)
        → lookup k b.key_profile ≡ some p
        → m k ≡ some e
        → has_rule r e ≡ true
        → lists b.rule_index r k ≡ true
    pub tagged :
        (k p t : String) (e : Entry)
        → lookup k b.key_profile ≡ some p
        → m k ≡ some e
        → has_tag t e ≡ true
        → lists b.tag_index t k ≡ true

  -- A step that takes keys away: of the keys that stay, the ideal entry and its listings stay.
  pub record Shrinks (b' b : MemoryBackend T) (m' m : Ideal) : Type 0 where
    pub keys :
        (k p : String)
        → lookup k b'.key_profile ≡ some p
        → (lookup k b.key_profile ≡ some p) × (m' k ≡ m k)
    pub fewer : Fewer T b'.caches b.caches
    pub rules :
        (k p r : String) (e : Entry)
        → lookup k b'.key_profile ≡ some p
        → m' k ≡ some e
        → has_rule r e ≡ true
        → lists b.rule_index r k ≡ true
        → lists b'.rule_index r k ≡ true
    pub tags :
        (k p t : String) (e : Entry)
        → lookup k b'.key_profile ≡ some p
        → m' k ≡ some e
        → has_tag t e ≡ true
        → lists b.tag_index t k ≡ true
        → lists b'.tag_index t k ≡ true

  pub Shrinks-Models :
      (b' b : MemoryBackend T) (m' m : Ideal) → Shrinks b' b m' m → Models b m → Models b' m'
  Shrinks-Models b' b m' m sh h = record {
    placed = λ k p at. sh.fewer.names p (h.placed k p (sh.keys k p at).0);
    configured = λ p c' at.
        let (c, old, less) = sh.fewer.origin p c' at in
        let (ttl, room) = h.configured p c old in (less.config.0 ∙ ttl, rw less.config.1 room);
    served = λ now k p c' v at cache shown.
        let (c, old, less) = sh.fewer.origin p c' cache in
        let (was, same) = sh.keys k p at in
        Serves-same m' m now k v same (h.served now k p c v was old (less.shown now k v shown));
    ruled = λ k p r e at found has.
        let (was, same) = sh.keys k p at in
        sh.rules k p r e at found has (h.ruled k p r e was (sym same ∙ found) has);
    tagged = λ k p t e at found has.
        let (was, same) = sh.keys k p at in
        sh.tags k p t e at found has (h.tagged k p t e was (sym same ∙ found) has);
  }
