-- ===== src/Cache/Memory/Evict.antt =====
-- The loop of memory_backend.py that takes a list of keys out of the profile caches.
use hse_graduate_qualificati.Base.{
  ℕ, String, ◌≡◌, refl, true, none, some, List, [], ◌∷◌, eq_refl, arith, contains, if◌then◌else◌,
  text_cases, Option-cases, inl, inr, ◌∙◌,
}
use hse_graduate_qualificati.Base.Dict.{
  Dict, lookup, remove, has_key, lookup-remove, lookup_of_has_key,
}
use hse_graduate_qualificati.Base.Exec.{ok, after-ok}
use hse_graduate_qualificati.Cache.Ttl.{TtlCaches, TtlLaws}
use hse_graduate_qualificati.Cache.Memory.{MemoryBackend, evict, evict_all}
use hse_graduate_qualificati.Cache.Memory.Models.{Fewer, Fewer-refl, Fewer-trans, Fewer-insert}

lookup_absent :
    (key j : String) (d : Dict String)
    → lookup key d ≡ none
    → lookup j d ≡ (if contains j (key ∷ []) then none else lookup j d)
unfolding contains
lookup_absent key j d h = elim (text_cases key j) [
  | inl same ↦ rw (← same, eq_refl key) h
  | inr differs ↦ rw differs
]

lookup_removed :
    (key j : String) (d : Dict String)
    → lookup j (remove key d) ≡ (if contains j (key ∷ []) then none else lookup j d)
unfolding contains
lookup_removed key j d = rw lookup-remove (ground arith)

module _ (T : TtlCaches) where
  abbrev pub IsPlaced : MemoryBackend T → Type 0
  IsPlaced b = (k p : String) → lookup k b.key_profile ≡ some p → has_key p b.caches ≡ true

  -- `b'` is `b` without the keys: nothing else of it has changed.
  pub record Evicted (gone : List String) (b' b : MemoryBackend T) : Type 0 where
    pub keys :
        (j : String)
        → lookup j b'.key_profile ≡ (if contains j gone then none else lookup j b.key_profile)
    pub fewer : Fewer T b'.caches b.caches
    pub rule_index : b'.rule_index ≡ b.rule_index
    pub tag_index : b'.tag_index ≡ b.tag_index
    pub counters : b'.counters ≡ b.counters

  pub Evicted-IsPlaced :
      (gone : List String) (b' b : MemoryBackend T) → Evicted gone b' b → IsPlaced b → IsPlaced b'
  Evicted-IsPlaced gone b' b e h k p at = e.fewer.names p (h k p (ground (arith, e.keys k, at)))

  Evicted-cons :
      (key : String) (gone : List String) (b'' b' b : MemoryBackend T)
      → Evicted (key ∷ []) b' b
      → Evicted gone b'' b'
      → Evicted (key ∷ gone) b'' b
  unfolding contains
  Evicted-cons key gone b'' b' b e f = record {
    keys = λ j. ground (arith, e.keys j, f.keys j);
    fewer = Fewer-trans T b''.caches b'.caches b.caches f.fewer e.fewer;
    rule_index = f.rule_index ∙ e.rule_index;
    tag_index = f.tag_index ∙ e.tag_index;
    counters = f.counters ∙ e.counters;
  }

  module _ (L : TtlLaws T) where
    -- One round of the loop does not raise.
    pub evict-Evicted :
        (now : ℕ) (key : String) (b : MemoryBackend T)
        → IsPlaced b
        → ((evict T now key b).0 ≡ ok tt) × Evicted (key ∷ []) (evict T now key b).1 b
    unfolding evict
    evict-Evicted now key b h = elim (Option-cases (lookup key b.key_profile)) [
      | inl absent ↦
          rw (absent, evict)
            (
              refl,
              record {
                keys = λ j. lookup_absent key j b.key_profile absent;
                fewer = Fewer-refl T b.caches;
                rule_index = refl;
                tag_index = refl;
                counters = refl;
              },
            )
      | inr (p, found) ↦
          let (c, cache) = lookup_of_has_key p b.caches (h key p found) in
          rw (found, cache, evict)
            (
              refl,
              record {
                keys = λ j. lookup_removed key j b.key_profile;
                fewer = Fewer-insert T p c (T.pop now key c) b.caches cache (record {
                  config = L.config-pop now key c;
                  shown = λ t j v. L.peek-pop now t key j c;
                });
                rule_index = refl;
                tag_index = refl;
                counters = refl;
              },
            )
    ]

    -- The loop does not raise, and takes out exactly the keys.
    pub evict_all-Evicted :
        (now : ℕ) (keys : List String) (b : MemoryBackend T)
        → IsPlaced b
        → ((evict_all T now keys b).0 ≡ ok tt) × Evicted keys (evict_all T now keys b).1 b
    unfolding evict_all contains
    evict_all-Evicted now [] b h = (
      refl,
      record {
        keys = λ j. refl;
        fewer = Fewer-refl T b.caches;
        rule_index = refl;
        tag_index = refl;
        counters = refl;
      },
    )
    evict_all-Evicted now (key ∷ keys) b h =
        let (fine, e) = evict-Evicted now key b h in
        let b' = (evict T now key b).1 in
        let (fine', f) = evict_all-Evicted now keys b' (Evicted-IsPlaced (key ∷ []) b' b e h) in
        rw (after-ok (evict T now key b) (λ _. evict_all T now keys) fine)
          (fine', Evicted-cons key keys (evict_all T now keys b').1 b' b e f)
