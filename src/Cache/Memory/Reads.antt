-- ===== src/Cache/Memory/Reads.antt =====
-- `get` of memory_backend.py, against the ideal cache.
use hse_graduate_qualificati.Base.{
  ℕ, String, ◌≡◌, refl, sym, ◌∙◌, Option, none, some, ◌==◌, arith, if◌then◌else◌, Option-cases, inl,
  inr,
}
use hse_graduate_qualificati.Base.Dict.{Dict, lookup, insert, lookup-remove, lookup_of_has_key}
use hse_graduate_qualificati.Base.Exec.{ok, ok_inj}
use hse_graduate_qualificati.Cache.Backend.{Bytes}
use hse_graduate_qualificati.Cache.Backend.Ideal.{Ideal, Serves}
use hse_graduate_qualificati.Cache.Ttl.{TtlCaches, TtlLaws, peek}
use hse_graduate_qualificati.Cache.Memory.{MemoryBackend, get, finish_get}
use hse_graduate_qualificati.Cache.Memory.Models.{
  Models, Shrinks, Shrinks-Models, Fewer-refl, Fewer-insert,
}
use hse_graduate_qualificati.Dsl.Schema.{CacheProfile}

removed_inv :
    (key j p : String) (o : Option String) → (if key == j then none else o) ≡ some p → o ≡ some p
removed_inv key j p o h = ground arith

module _ (T : TtlCaches) where
  get_absent :
      (b : MemoryBackend T) (now : ℕ) (key : String)
      → lookup key b.key_profile ≡ none
      → (get T now key b).0 ≡ ok none
  unfolding get
  get_absent b now key h = rw (h, get)

  get_present :
      (b : MemoryBackend T) (now : ℕ) (key p : String) (c : T.Cache)
      → lookup key b.key_profile ≡ some p
      → lookup p b.caches ≡ some c
      → get T now key b
        ≡ finish_get T key
            (peek T now key c)
            (record b { caches = insert p (T.get now key c).1 b.caches })
  unfolding get
  get_present b now key p c at cache = rw (at, cache, get)

  finish_get-eq :
      (key : String) (value : Option Bytes) (b : MemoryBackend T)
      → (finish_get T key value b).0 ≡ ok value
  unfolding finish_get
  finish_get-eq key none b = refl
  finish_get-eq key (some v) b = refl

  -- A key whose profile has a cache is answered by that cache.
  pub get-answer :
      (b : MemoryBackend T) (now : ℕ) (key p : String) (c : T.Cache)
      → lookup key b.key_profile ≡ some p
      → lookup p b.caches ≡ some c
      → (get T now key b).0 ≡ ok (peek T now key c)
  get-answer b now key p c at cache =
      let b' : MemoryBackend T = record b { caches = insert p (T.get now key c).1 b.caches } in
      rw (get_present b now key p c at cache) (finish_get-eq key (peek T now key c) b')

module _ (T : TtlCaches) (L : TtlLaws T) (profiles : Dict CacheProfile) where
  -- What `get` returns is what the ideal cache serves at that time.
  pub get-Serves :
      (b : MemoryBackend T) (m : Ideal) (now : ℕ) (k : String) (v : Bytes)
      → Models T profiles b m
      → (get T now k b).0 ≡ ok (some v)
      → Serves m now k v
  get-Serves b m now k v h hit = elim (Option-cases (lookup k b.key_profile)) [
    | inl absent ↦ cc (hit, get_absent T b now k absent)
    | inr (p, at) ↦
        let (c, cache) = lookup_of_has_key p b.caches (h.placed k p at) in
        h.served now k p c v at cache (ok_inj _ _ (sym (get-answer T b now k p c at cache) ∙ hit))
  ]

  Shrinks-read :
      (b : MemoryBackend T) (m : Ideal) (now : ℕ) (k p : String) (c : T.Cache)
      → lookup p b.caches ≡ some c
      → Shrinks T profiles (record b { caches = insert p (T.get now k c).1 b.caches }) b m m
  Shrinks-read b m now k p c cache = record {
    keys = λ j q at. (at, refl);
    fewer =
        Fewer-insert T p c (T.get now k c).1 b.caches cache
          (record { config = L.config-get now k c; shown = λ t j v. L.peek-get now t k j c });
    rules = λ j q r x at found has was. was;
    tags = λ j q t x at found has was. was;
  }

  finish_get-Models :
      (b : MemoryBackend T) (m : Ideal) (k : String) (value : Option Bytes)
      → Models T profiles b m
      → Models T profiles (finish_get T k value b).1 m
  unfolding finish_get
  finish_get-Models b m k none h =
      Shrinks-Models T profiles (finish_get T k none b).1 b m m
        (record {
          keys =
              λ j q at. (removed_inv k j q (lookup j b.key_profile) (rw lookup-remove at at), refl);
          fewer = Fewer-refl T b.caches;
          rules = λ j q r x at found has was. was;
          tags = λ j q t x at found has was. was;
        })
        h
  finish_get-Models b m k (some v) h = record {
    placed = h.placed;
    configured = h.configured;
    served = h.served;
    ruled = h.ruled;
    tagged = h.tagged;
  }

  -- `get` never raises, and changes nothing that the ideal cache has.
  pub get-Models :
      (b : MemoryBackend T) (m : Ideal) (now : ℕ) (k : String)
      → Models T profiles b m
      → Models T profiles (get T now k b).1 m
  unfolding get
  get-Models b m now k h = elim (Option-cases (lookup k b.key_profile)) [
    | inl absent ↦
        rw (absent, get)
          (record {
            placed = h.placed;
            configured = h.configured;
            served = h.served;
            ruled = h.ruled;
            tagged = h.tagged;
          })
    | inr (p, at) ↦
        let (c, cache) = lookup_of_has_key p b.caches (h.placed k p at) in
        let b' : MemoryBackend T = record b { caches = insert p (T.get now k c).1 b.caches } in
        rw (get_present T b now k p c at cache) (
          finish_get-Models b' m k (peek T now k c)
            (Shrinks-Models T profiles b' b m m (Shrinks-read b m now k p c cache) h))
  ]
