-- ===== src/Cache/Memory/Writes.antt =====
-- `set_with_indexes` of memory_backend.py, against the ideal cache.
use hse_graduate_qualificati.Base.{
  ℕ, ◌<◌, String, ◌≡◌, ap, true, false, some, ◌==◌, eq_refl, arith, if◌then◌else◌, text_cases,
  Option-cases, inl, inr, ◌∙◌, ne_of_differs, hit_inv, sym,
}
use mathlib.Core.Path.{subst, subst₂}
use hse_graduate_qualificati.Base.Dict.{
  Dict, lookup, insert, has_key, lookup-insert, has_key-insert,
}
use hse_graduate_qualificati.Base.Exec.{ok}
use hse_graduate_qualificati.Cache.Backend.{Bytes, Write, count_set}
use hse_graduate_qualificati.Cache.Backend.Contract.{unless_raised}
use hse_graduate_qualificati.Cache.Backend.Ideal.{
  Ideal, Entry, Serves, Serves-same, has_rule, has_tag, write, entry_of, has_rule-entry_of,
  deadline_after, InTime,
}
use hse_graduate_qualificati.Cache.Ttl.{TtlCaches, TtlLaws, peek}
use hse_graduate_qualificati.Cache.Memory.{
  MemoryBackend, store, set_with_indexes, index_add, index_tags,
}
use hse_graduate_qualificati.Cache.Memory.Index.{
  lists, lists-add_mono, lists-add_self, index_tags_mono, index_tags_lem,
}
use hse_graduate_qualificati.Cache.Memory.Models.{Models, profile_lifetime}
use hse_graduate_qualificati.Dsl.Schema.{CacheProfile}

module _ (T : TtlCaches) where
  -- The state after a write into the cache `c` of its profile.
  abbrev pub written : MemoryBackend T → ℕ → Write → T.Cache → MemoryBackend T
  written b now w c = record b {
    caches = insert w.profile_name (T.set now w.key w.value c) b.caches;
    key_profile = insert w.key w.profile_name b.key_profile;
    rule_index = index_add w.rule w.key b.rule_index;
    tag_index = index_tags w.tags w.key b.tag_index;
    counters = count_set b.counters;
  }

  pub set_with_indexes-written :
      (b : MemoryBackend T) (now : ℕ) (w : Write) (c : T.Cache)
      → lookup w.profile_name b.caches ≡ some c
      → set_with_indexes T now w b ≡ (ok tt, written b now w c)
  unfolding set_with_indexes store
  set_with_indexes-written b now w c cache = rw (cache, set_with_indexes)

module _ (T : TtlCaches) (L : TtlLaws T) (profiles : Dict CacheProfile) where
  module _ (b : MemoryBackend T) (m : Ideal) (now : ℕ) (w : Write) (c : T.Cache) where
    abbrev new_cache : T.Cache
    new_cache = T.set now w.key w.value c

    abbrev new_entry : Entry
    new_entry = entry_of now (profile_lifetime profiles w.profile_name) w

    -- the written key shows the written value, for as long as its profile says
    served_new :
        Models T profiles b m
        → lookup w.profile_name b.caches ≡ some c
        → (t : ℕ) (v : Bytes) → peek T t w.key new_cache ≡ some v
        → Serves (write w.key new_entry m) t w.key v
    served_new h cache t v shown =
        let (value, alive) = L.peek-set_self now t w.key w.value c shown in
        record {
          entry = new_entry;
          found = rw (eq_refl w.key);
          carries = value;
          in_time =
              subst (λ l. InTime (deadline_after now l) t) (h.configured w.profile_name c cache).0
                alive;
        }

    -- any other key shows what it showed
    served_old :
        Models T profiles b m
        → lookup w.profile_name b.caches ≡ some c
        → (t : ℕ) (k p : String) (d : T.Cache) (v : Bytes) → w.key == k ≡ false
        → lookup k b.key_profile ≡ some p
        → (if w.profile_name == p then some new_cache else lookup p b.caches) ≡ some d
        → peek T t k d ≡ some v
        → Serves m t k v
    served_old h cache t k p d v differs at in_p shown = elim (text_cases w.profile_name p) [
      | inl same ↦
          let e : new_cache ≡ d =
            hit_inv w.profile_name p new_cache d (lookup p b.caches) same in_p in
          let f : peek T t k new_cache ≡ some v = rw e shown in
          h.served t k p c v at (rw (← same) cache)
            (L.peek-set_ne now t w.key k w.value c (ne_of_differs w.key k differs) f)
      | inr other ↦ h.served t k p d v at (rw other at in_p) shown
    ]

    served_after :
        Models T profiles b m
        → lookup w.profile_name b.caches ≡ some c
        → (t : ℕ) (k p : String) (d : T.Cache) (v : Bytes)
        → (if w.key == k then some w.profile_name else lookup k b.key_profile) ≡ some p
        → (if w.profile_name == p then some new_cache else lookup p b.caches) ≡ some d
        → peek T t k d ≡ some v
        → Serves (write w.key new_entry m) t k v
    served_after h cache t k p d v at in_p shown = elim (text_cases w.key k) [
      | inl same ↦
          let placed_in : w.profile_name ≡ p =
            hit_inv w.key k w.profile_name p (lookup k b.key_profile) same at in
          let e : new_cache ≡ d =
            hit_inv w.profile_name p new_cache d (lookup p b.caches) placed_in in_p in
          let shown' : peek T t k new_cache ≡ some v = rw e shown in
          subst (λ j. Serves (write w.key new_entry m) t j v) same
            (served_new h cache t v (subst (λ j. peek T t j new_cache ≡ some v) (sym same) shown'))
      | inr differs ↦
          Serves-same (write w.key new_entry m) m t k v (rw differs)
            (served_old h cache t k p d v differs (rw differs at at) in_p shown)
    ]

    placed_after :
        Models T profiles b m
        → (k p : String)
        → (if w.key == k then some w.profile_name else lookup k b.key_profile) ≡ some p
        → has_key p (insert w.profile_name new_cache b.caches) ≡ true
    placed_after h k p at = rw has_key-insert (elim (text_cases w.key k) [
      | inl same ↦
          let placed_in : w.profile_name ≡ p =
            hit_inv w.key k w.profile_name p (lookup k b.key_profile) same at in
          rw (placed_in, eq_refl p)
      | inr differs ↦ rw (h.placed k p (rw differs at at)) (ground arith)
    ])

    configured_after :
        Models T profiles b m
        → lookup w.profile_name b.caches ≡ some c
        → (p : String) (d : T.Cache)
        → (if w.profile_name == p then some new_cache else lookup p b.caches) ≡ some d
        → (T.ttl d ≡ profile_lifetime profiles p) × (0 < T.maxsize d)
    configured_after h cache p d in_p = elim (text_cases w.profile_name p) [
      | inl same ↦
          let e : new_cache ≡ d =
            hit_inv w.profile_name p new_cache d (lookup p b.caches) same in_p in
          let (ttl, room) = h.configured w.profile_name c cache in
          let (same_ttl, same_size) = L.config-set now w.key w.value c in
          rw (← e) (same_ttl ∙ ttl ∙ ap (profile_lifetime profiles) same, rw same_size room)
      | inr differs ↦ h.configured p d (rw differs at in_p)
    ]

    ruled_after :
        Models T profiles b m
        → (k p r : String) (e : Entry)
        → (if w.key == k then some w.profile_name else lookup k b.key_profile) ≡ some p
        → write w.key new_entry m k ≡ some e
        → has_rule r e ≡ true
        → lists (index_add w.rule w.key b.rule_index) r k ≡ true
    ruled_after h k p r e at found has = elim (text_cases w.key k) [
      | inl same ↦
          let x : new_entry ≡ e = hit_inv w.key k new_entry e (m k) same found in
          let own : w.rule ≡ r =
            has_rule-entry_of now (profile_lifetime profiles w.profile_name) w r
              (subst (λ y. has_rule r y ≡ true) (sym x) has) in
          subst₂ (λ q j. lists (index_add w.rule w.key b.rule_index) q j ≡ true) own same
            (lists-add_self b.rule_index w.rule w.key)
      | inr differs ↦
          lists-add_mono b.rule_index w.rule r w.key k
            (h.ruled k p r e (rw differs at at) (rw differs at found) has)
    ]

    tagged_after :
        Models T profiles b m
        → (k p t : String) (e : Entry)
        → (if w.key == k then some w.profile_name else lookup k b.key_profile) ≡ some p
        → write w.key new_entry m k ≡ some e
        → has_tag t e ≡ true
        → lists (index_tags w.tags w.key b.tag_index) t k ≡ true
    tagged_after h k p t e at found has = elim (text_cases w.key k) [
      | inl same ↦
          let x : new_entry ≡ e = hit_inv w.key k new_entry e (m k) same found in
          let own : has_tag t new_entry ≡ true = subst (λ y. has_tag t y ≡ true) (sym x) has in
          subst (λ j. lists (index_tags w.tags w.key b.tag_index) t j ≡ true) same
            (index_tags_lem w.tags b.tag_index t w.key own)
      | inr differs ↦
          index_tags_mono w.tags b.tag_index t w.key k
            (h.tagged k p t e (rw differs at at) (rw differs at found) has)
    ]

    -- A write to a profile that has a cache makes the state stand for the ideal cache with the entry.
    written-Models :
        Models T profiles b m
        → lookup w.profile_name b.caches ≡ some c
        → Models T profiles (written T b now w c) (write w.key new_entry m)
    written-Models h cache = record {
      placed = λ k p at. placed_after h k p (rw lookup-insert at at);
      configured = λ p d in_p. configured_after h cache p d (rw lookup-insert at in_p);
      served = λ t k p d v at in_p shown.
          served_after h cache t k p d v (rw lookup-insert at at) (rw lookup-insert at in_p) shown;
      ruled = λ k p r e at found has. ruled_after h k p r e (rw lookup-insert at at) found has;
      tagged = λ k p t e at found has. tagged_after h k p t e (rw lookup-insert at at) found has;
    }

  -- A write to an unknown profile raises and changes nothing; any other makes the state stand for
  -- the ideal cache with the entry.
  pub set_with_indexes-Models :
      (b : MemoryBackend T) (m : Ideal) (now : ℕ) (w : Write)
      → Models T profiles b m
      → Models T profiles (set_with_indexes T now w b).1 (
          unless_raised
            (set_with_indexes T now w b).0
            (write w.key (entry_of now (profile_lifetime profiles w.profile_name) w) m)
            m)
  unfolding set_with_indexes
  set_with_indexes-Models b m now w h = elim (Option-cases (lookup w.profile_name b.caches)) [
    | inl absent ↦ rw (absent, set_with_indexes) h
    | inr (c, cache) ↦
        rw (set_with_indexes-written T b now w c cache) (written-Models b m now w c h cache)
  ]
