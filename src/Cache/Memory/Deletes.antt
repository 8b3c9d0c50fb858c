-- ===== src/Cache/Memory/Deletes.antt =====
-- The methods of memory_backend.py that take keys away: `delete`, `del_by_rule`, `del_by_tag` and
-- `flush`, against the ideal cache.
use hse_graduate_qualificati.Base.{
  ℕ, String, ◌≡◌, refl, false, Option, none, some, List, [], ◌∷◌, ◌==◌, arith, contains,
  if◌then◌else◌, text_cases, inl, inr, ◌∙◌, sym,
}
use hse_graduate_qualificati.Base.Dict.{
  Dict, lookup, remove, map_values, mapped, lookup-map_values, lookup_of_has_key, has_key_of_lookup,
}
use hse_graduate_qualificati.Base.Exec.{ok, after-ok}
use hse_graduate_qualificati.Cache.Backend.Ideal.{
  Ideal, has_rule, has_tag, unless-some, unless_kept, has_rule_ne, has_tag_ne, drop_rule, drop_tag,
  erase, empty,
}
use hse_graduate_qualificati.Cache.Ttl.{TtlCaches, TtlLaws}
use hse_graduate_qualificati.Cache.Memory.{
  MemoryBackend, index_keys, evict, evict_all, delete, del_by_rule, del_by_tag, flush, leave_tags,
  leave_rules,
}
use hse_graduate_qualificati.Cache.Memory.Index.{lists-remove, lists-discard}
use hse_graduate_qualificati.Cache.Memory.Models.{Models, Shrinks-Models, Fewer, ShowsLess}
use hse_graduate_qualificati.Cache.Memory.Evict.{evict-Evicted, evict_all-Evicted}
use hse_graduate_qualificati.Dsl.Schema.{CacheProfile}

-- A key that is still there was not among those taken out.
kept :
    (gone : List String) (j p : String) (o : Option String)
    → (if contains j gone then none else o) ≡ some p
    → (contains j gone ≡ false) × (o ≡ some p)
kept gone j p o h = ground arith

not-contains-singleton : (key k : String) → contains k (key ∷ []) ≡ false → key == k ≡ false
unfolding contains
not-contains-singleton key k h = ground arith

lookup-nil {ℓ} : {V : Type ℓ} (k : String) (v : V) → lookup k [] ≡ some v → ⊥
unfolding lookup
lookup-nil k v h = cc

clear_origin :
    (T : TtlCaches) (L : TtlLaws T) (o : Option T.Cache) (c' : T.Cache)
    → mapped T.clear o ≡ some c'
    → (c : T.Cache) × (o ≡ some c) × ShowsLess T c' c
clear_origin T L none c' h = cc
clear_origin T L (some c) c' h =
    let same : T.clear c ≡ c' = cc in
    (
      c,
      refl,
      rw (← same)
          (record { config = L.config-clear c; shown = λ now k v h. cc (h, L.peek-clear now k c) }),
    )

module _ (T : TtlCaches) (L : TtlLaws T) (profiles : Dict CacheProfile) where
  -- In a state that stands for an ideal cache, `del_by_rule` comes back, and the backend then stands
  -- for the ideal cache without the rule's entries.
  pub del_by_rule-Models :
      (b : MemoryBackend T) (m : Ideal) (now : ℕ) (rule : String)
      → Models T profiles b m
      → ((del_by_rule T now rule b).0 ≡ ok tt)
        × Models T profiles (del_by_rule T now rule b).1 (drop_rule rule m)
  unfolding del_by_rule
  del_by_rule-Models b m now rule h =
      let gone = index_keys rule b.rule_index in
      let start : MemoryBackend T = record b { rule_index = remove rule b.rule_index } in
      let (fine, e) = evict_all-Evicted T L now gone start h.placed in
      let b₁ = (evict_all T now gone start).1 in
      let b₂ = (leave_tags T gone b₁).1 in
      rw (after-ok (evict_all T now gone start) (λ _. leave_tags T gone) fine) (
        refl,
        Shrinks-Models T profiles b₂ b (drop_rule rule m) m
            (record {
              keys = λ k p at.
                  let (out, was) = kept gone k p (lookup k b.key_profile) (sym (e.keys k) ∙ at) in
                  (
                    was,
                    unless_kept (has_rule rule) (m k)
                        λ x found has. cc (h.ruled k p rule x was found has, out),
                  );
              fewer = e.fewer;
              rules = λ k p r x at found has was.
                  rw (e.rule_index, lists-remove)
                    (elim (text_cases rule r) [
                      | inl same ↦ absurd (
                          has_rule_ne rule r x same (unless-some (has_rule rule) (m k) x found).1
                            has)
                      | inr differs ↦ rw differs was
                    ]);
              tags = λ k p t x at found has was. rw e.tag_index (
                  lists-discard gone b.tag_index t k was
                    (kept gone k p (lookup k b.key_profile) (sym (e.keys k) ∙ at)).0);
            })
            h,
      )

  -- In a state that stands for an ideal cache, `del_by_tag` comes back, and the backend then stands
  -- for the ideal cache without the tag's entries.
  pub del_by_tag-Models :
      (b : MemoryBackend T) (m : Ideal) (now : ℕ) (tag : String)
      → Models T profiles b m
      → ((del_by_tag T now tag b).0 ≡ ok tt)
        × Models T profiles (del_by_tag T now tag b).1 (drop_tag tag m)
  unfolding del_by_tag
  del_by_tag-Models b m now tag h =
      let gone = index_keys tag b.tag_index in
      let start : MemoryBackend T = record b { tag_index = remove tag b.tag_index } in
      let (fine, e) = evict_all-Evicted T L now gone start h.placed in
      let b₁ = (evict_all T now gone start).1 in
      let b₂ = (leave_rules T gone b₁).1 in
      rw (after-ok (evict_all T now gone start) (λ _. leave_rules T gone) fine) (
        refl,
        Shrinks-Models T profiles b₂ b (drop_tag tag m) m
            (record {
              keys = λ k p at.
                  let (out, was) = kept gone k p (lookup k b.key_profile) (sym (e.keys k) ∙ at) in
                  (
                    was,
                    unless_kept (has_tag tag) (m k)
                        λ x found has. cc (h.tagged k p tag x was found has, out),
                  );
              fewer = e.fewer;
              rules = λ k p r x at found has was. rw e.rule_index (
                  lists-discard gone b.rule_index r k was
                    (kept gone k p (lookup k b.key_profile) (sym (e.keys k) ∙ at)).0);
              tags = λ k p t x at found has was.
                  rw (e.tag_index, lists-remove)
                    (elim (text_cases tag t) [
                      | inl same ↦
                          absurd (
                            has_tag_ne tag t x same (unless-some (has_tag tag) (m k) x found).1 has)
                      | inr differs ↦ rw differs was
                    ]);
            })
            h,
      )

  -- `delete` takes the one key out, and leaves the indexes as they are.
  pub delete-Models :
      (b : MemoryBackend T) (m : Ideal) (now : ℕ) (key : String)
      → Models T profiles b m
      → ((delete T now key b).0 ≡ ok tt) × Models T profiles (delete T now key b).1 (erase key m)
  unfolding delete
  delete-Models b m now key h =
      let (fine, e) = evict-Evicted T L now key b h.placed in
      let b' = (evict T now key b).1 in
      (
        fine,
        Shrinks-Models T profiles b' b (erase key m) m
            (record {
              keys = λ k p at.
                  let (out, was) =
                    kept (key ∷ []) k p (lookup k b.key_profile) (sym (e.keys k) ∙ at) in
                  (was, rw (not-contains-singleton key k out));
              fewer = e.fewer;
              rules = λ k p r x at found has was. rw e.rule_index was;
              tags = λ k p t x at found has was. rw e.tag_index was;
            })
            h,
      )

  clear-Fewer : (caches : Dict T.Cache) → Fewer T (map_values T.clear caches) caches
  clear-Fewer caches = record {
    names = λ p h.
        let (c, found) = lookup_of_has_key p caches h in
        has_key_of_lookup p (T.clear c) (map_values T.clear caches) (rw (lookup-map_values, found));
    origin = λ p c' at. clear_origin T L (lookup p caches) c' (rw lookup-map_values at at);
  }

  -- `flush` leaves an empty cache.
  pub flush-Models :
      (b : MemoryBackend T) (m : Ideal)
      → Models T profiles b m
      → ((flush T b).0 ≡ ok tt) × Models T profiles (flush T b).1 empty
  unfolding flush
  flush-Models b m h = (
    refl,
    Shrinks-Models T profiles (flush T b).1 b empty m
        (record {
          keys = λ k p at. absurd (lookup-nil k p at);
          fewer = clear-Fewer b.caches;
          rules = λ k p r x at found has was. absurd (lookup-nil k p at);
          tags = λ k p t x at found has was. absurd (lookup-nil k p at);
        })
        h,
  )
