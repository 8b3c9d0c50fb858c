-- ===== src/Cache/Redis/Models.antt =====
-- `RedisBackend` as an implementation of the protocol's contract.
use hse_graduate_qualificati.Base.{
  ℕ, String, ◌≡◌, refl, sym, Bool, true, false, some, Bool-cases, inl, inr,
}
use hse_graduate_qualificati.Cache.Backend.{Bytes}
use hse_graduate_qualificati.Cache.Backend.Ideal.{
  Ideal, Entry, Serves, has_rule, has_tag, unless, unless-some, has_rule_ne, has_tag_ne, drop_rule,
  drop_tag,
}
use hse_graduate_qualificati.Cache.Redis.{rule_index_key, tag_index_key}
use hse_graduate_qualificati.Cache.Redis.Names.{
  IsPayloadKey, rule_index_key_inj, tag_index_key_inj, rule_index_key-ne-tag_index_key,
}
use hse_graduate_qualificati.Cache.Redis.Server.{RedisServer, has_member}
use hse_graduate_qualificati.Cache.Redis.Script.{Removed}

module _ (R : RedisServer) where
  -- The server's keyspace stands for the ideal cache.
  pub record Holds (r : R.State) (m : Ideal) : Type 0 where
    pub served :
        (now : ℕ) (k : String) (v : Bytes)
        → IsPayloadKey k
        → R.get now k r ≡ some v
        → Serves m now k v
    -- a key that the ideal cache has is listed under its entry's rule and tags
    pub ruled :
        (k rule : String) (e : Entry)
        → m k ≡ some e
        → has_rule rule e ≡ true
        → has_member R (rule_index_key rule) k r ≡ true
    pub tagged :
        (k tag : String) (e : Entry)
        → m k ≡ some e
        → has_tag tag e ≡ true
        → has_member R (tag_index_key tag) k r ≡ true
    -- no index set has the name of an index set as a member
    pub rule_members :
        (rule k : String) → has_member R (rule_index_key rule) k r ≡ true → IsPayloadKey k
    pub tag_members :
        (tag k : String) → has_member R (tag_index_key tag) k r ≡ true → IsPayloadKey k

  -- a rule's set and a tag's set are no members of a set of payload keys
  free-rule :
      (name rule : String) (r : R.State)
      → ((k : String) → has_member R name k r ≡ true → IsPayloadKey k)
      → has_member R name (rule_index_key rule) r ≡ false
  free-rule name rule r payload = elim (Bool-cases (has_member R name (rule_index_key rule) r)) [
    | inl there ↦ absurd ((payload (rule_index_key rule) there).not_rule rule refl)
    | inr out ↦ out
  ]

  free-tag :
      (name tag : String) (r : R.State)
      → ((k : String) → has_member R name k r ≡ true → IsPayloadKey k)
      → has_member R name (tag_index_key tag) r ≡ false
  free-tag name tag r payload = elim (Bool-cases (has_member R name (tag_index_key tag) r)) [
    | inl there ↦ absurd ((payload (tag_index_key tag) there).not_tag tag refl)
    | inr out ↦ out
  ]

  drop-served :
      (test : Entry → Bool) (m : Ideal) (now : ℕ) (k : String) (v : Bytes)
      → ((e : Entry) → m k ≡ some e → test e ≡ true → ⊥)
      → Serves m now k v
      → Serves (λ j. unless test (m j)) now k v
  drop-served test m now k v stays s = elim (Bool-cases (test s.entry)) [
    | inl dropped ↦ absurd (stays s.entry s.found dropped)
    | inr kept ↦ record {
      entry = s.entry;
      found = rw (s.found, kept);
      carries = s.carries;
      in_time = s.in_time;
    }
  ]

  pub Holds-drop_rule :
      (rule : String) (r' r : R.State) (m : Ideal)
      → Removed R (rule_index_key rule) r' r
      → Holds r m
      → Holds r' (drop_rule rule m)
  Holds-drop_rule rule r' r m gone h = record {
    served = λ now k v key found.
        let (was, out) = gone.shown now k v found in
        drop-served (has_rule rule) m now k v (λ e at has. cc (h.ruled k rule e at has, out))
          (h.served now k v key was);
    ruled = λ k q e at has.
        let (was, other) = unless-some (has_rule rule) (m k) e at in
        rw
          (gone.kept (rule_index_key q) k
            (λ same. has_rule_ne rule q e (rule_index_key_inj rule q same) other has)
            (free-rule (rule_index_key rule) q r (h.rule_members rule)))
          (h.ruled k q e was has);
    tagged = λ k tag e at has.
        let (was, other) = unless-some (has_rule rule) (m k) e at in
        rw
          (gone.kept (tag_index_key tag) k (rule_index_key-ne-tag_index_key rule tag)
            (free-tag (rule_index_key rule) tag r (h.rule_members rule)))
          (h.tagged k tag e was has);
    rule_members = λ q k in_set. h.rule_members q k (gone.no_more (rule_index_key q) k in_set);
    tag_members = λ q k in_set. h.tag_members q k (gone.no_more (tag_index_key q) k in_set);
  }

  pub Holds-drop_tag :
      (tag : String) (r' r : R.State) (m : Ideal)
      → Removed R (tag_index_key tag) r' r
      → Holds r m
      → Holds r' (drop_tag tag m)
  Holds-drop_tag tag r' r m gone h = record {
    served = λ now k v key found.
        let (was, out) = gone.shown now k v found in
        drop-served (has_tag tag) m now k v (λ e at has. cc (h.tagged k tag e at has, out))
          (h.served now k v key was);
    ruled = λ k rule e at has.
        let (was, other) = unless-some (has_tag tag) (m k) e at in
        rw
          (gone.kept (rule_index_key rule) k
            (λ same. rule_index_key-ne-tag_index_key rule tag (sym same))
            (free-rule (tag_index_key tag) rule r (h.tag_members tag)))
          (h.ruled k rule e was has);
    tagged = λ k q e at has.
        let (was, other) = unless-some (has_tag tag) (m k) e at in
        rw
          (gone.kept (tag_index_key q) k
            (λ same. has_tag_ne tag q e (tag_index_key_inj tag q same) other has)
            (free-tag (tag_index_key tag) q r (h.tag_members tag)))
          (h.tagged k q e was has);
    rule_members = λ q k in_set. h.rule_members q k (gone.no_more (rule_index_key q) k in_set);
    tag_members = λ q k in_set. h.tag_members q k (gone.no_more (tag_index_key q) k in_set);
  }
