-- ===== src/Cache/Memory/Fresh.antt =====
-- What a client of memory_backend.py can rely on from construction: no stale hit, and a hit after a
-- write.
use hse_graduate_qualificati.Base.{ℕ, ◌≤◌, String, ◌≡◌, refl, some, List, [], ◌∷◌, eq_refl, All, ap}
use hse_graduate_qualificati.Base.Dict.{Dict, lookup, lookup-insert}
use hse_graduate_qualificati.Base.Exec.{ok}
use hse_graduate_qualificati.Cache.Backend.{Bytes, CacheCounters, Write}
use hse_graduate_qualificati.Cache.Backend.Ideal.{Ideal, InTime, deadline_after}
use hse_graduate_qualificati.Cache.Backend.History.{
  Call, run, Justified, HasKey, hit-Justified, set_with_indexes,
}
use hse_graduate_qualificati.Cache.Ttl.{TtlCaches, TtlLaws}
use hse_graduate_qualificati.Cache.Memory.{MemoryBackend, backend, init, get, finish_get, store}
use hse_graduate_qualificati.Cache.Memory
use hse_graduate_qualificati.Cache.Memory.Models.{Models, profile_lifetime}
use hse_graduate_qualificati.Cache.Memory.Refines.{IsDict, HasRoom, init-Models, memory_contract}
use hse_graduate_qualificati.Cache.Memory.Reads.{get-answer}
use hse_graduate_qualificati.Cache.Memory.Writes.{written, set_with_indexes-written}
use mathlib.Core.Path.{subst, sym, ◌∙◌}
use hse_graduate_qualificati.Dsl.Schema.{CacheProfile}

module _ (T : TtlCaches) (L : TtlLaws T) (profiles : Dict CacheProfile) where
  All-HasKey :
      (calls : List (ℕ × Call)) → All (HasKey (backend T) (memory_contract T L profiles)) calls
  All-HasKey [] = tt
  All-HasKey ((t, set_with_indexes w) ∷ calls) = (tt, All-HasKey calls)
  All-HasKey ((t, c) ∷ calls) = (tt, All-HasKey calls)

  -- For a backend made from profiles with distinct names and room for an entry each: after any calls
  -- in any order and at any times, what `get` returns is the last value written for its key by a
  -- `set_with_indexes` that did not raise, no later call has deleted that write's rule or one of its
  -- tags or flushed the cache, and the time to live of the write's profile is not over.
  pub memory_hit-Justified :
      (counters : CacheCounters) (b : MemoryBackend T) (calls : List (ℕ × Call))
      → (now : ℕ) (k : String) (v : Bytes) → IsDict profiles
      → HasRoom profiles
      → init T profiles counters ≡ ok b
      → (get T now k (run (backend T) calls (b, [])).0).0 ≡ ok (some v)
      → Justified
          (λ profile ttl. profile_lifetime profiles profile)
          (run (backend T) calls (b, [])).1
          now
          k
          v
  memory_hit-Justified counters b calls now k v distinct room made hit =
      hit-Justified (backend T) (memory_contract T L profiles) calls b now k v tt (All-HasKey calls)
        (init-Models T L profiles counters b distinct room made) hit

  -- In a state that stands for some ideal cache, a write to a profile that has a cache comes back,
  -- and the key's `get` then returns the value until the profile's time to live is over.
  pub get-set_with_indexes :
      (b : MemoryBackend T) (m : Ideal) (now later : ℕ) (w : Write) (c : T.Cache)
      → Models T profiles b m
      → lookup w.profile_name b.caches ≡ some c
      → now ≤ later
      → InTime (deadline_after now (profile_lifetime profiles w.profile_name)) later
      → ((Memory.set_with_indexes T now w b).0 ≡ ok tt)
        × ((get T later w.key (Memory.set_with_indexes T now w b).1).0 ≡ ok (some w.value))
  get-set_with_indexes b m now later w c h cache le alive =
      let fits : InTime (deadline_after now (T.ttl c)) later =
        subst (λ l. InTime (deadline_after now l) later)
          (sym (h.configured w.profile_name c cache).0) alive in
      rw (set_with_indexes-written T b now w c cache) (
        refl,
        get-answer T (written T b now w c) later w.key w.profile_name (T.set now w.key w.value c)
              (rw (lookup-insert, eq_refl w.key)) (rw (lookup-insert, eq_refl w.profile_name))
            ∙ ap ok (
                L.peek-set now later w.key w.value c (h.configured w.profile_name c cache).1 le
                  fits),
      )
