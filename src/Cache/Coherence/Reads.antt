-- ===== src/Cache/Coherence/Reads.antt =====
-- The resolver that interceptor.py's `wrap_query` returns, over any backend that keeps its contract
-- and any database: what it answers.
use hse_graduate_qualificati.Base.{
  ℕ, String, ◌≡◌, refl, sym, ap, ◌∙◌, ◌⊎◌, Option, none, some, List, text_cases, inl, inr, hit_inv,
  miss_inv,
}
use mathlib.Core.Path.{subst}
use hse_graduate_qualificati.Base.Exec.{Error, Result, ok, raise, Result-cases}
use hse_graduate_qualificati.Cache.Backend.{Bytes, CacheBackend}
use hse_graduate_qualificati.Cache.Backend.Contract.{Contract}
use hse_graduate_qualificati.Cache.Backend.Ideal.{Ideal, Entry, Serves, write, entry_of}
use hse_graduate_qualificati.Cache.Coherence.{Queries, inner, Answers, Coherent, Faithful}
use hse_graduate_qualificati.Cache.Interceptor.{
  Codec, Wrap, key_of, render_tags, write_of, store_result, on_miss, wrapped,
}
use hse_graduate_qualificati.Dsl.Value.{Args}

module _ {S D A : Type 0} (B : CacheBackend S) (C : Contract B) (codec : Codec A)
    (hexdigest : String → String) (Q : Queries D A) where
  -- After a read: it came back with the database's answer, or raised it, or raised an error of the
  -- cache; the database is as it was, and the backend's state stands for a coherent ideal cache.
  pub record CorrectRead (answer : Result A) (d : D) (r : Result A × (S × D)) : Type 0 where
    pub result : (r.0 ≡ answer) ⊎ ((e : Error) × (r.0 ≡ raise e))
    pub database : r.1.1 ≡ d
    pub ideal : Ideal
    pub models : C.Models r.1.0 ideal
    pub coherent : Coherent codec hexdigest Q ideal d

  -- The read came back with an error: nothing to answer for.
  raised :
      (answer : Result A) (d : D) (e : Error) (s : S) (m : Ideal)
      → C.Models s m
      → Coherent codec hexdigest Q m d
      → CorrectRead answer d (raise e, (s, d))
  raised answer d e s m models coherent = record {
    result = inr (e, refl);
    database = refl;
    ideal = m;
    models = models;
    coherent = coherent;
  }

  module _ (F : Faithful codec hexdigest Q) (w : Wrap) (args : Args)
      (registered : Q.Registered w) where
    -- A hit is the answer of the query, whichever query wrote it.
    hit-read :
        (d : D) (m : Ideal) (now : ℕ) (v : Bytes)
        → Coherent codec hexdigest Q m d
        → Serves m now (key_of hexdigest w args) v
        → Q.read w args d ≡ ok (codec.loads v)
    hit-read d m now v coherent serves =
        let a : Answers codec hexdigest Q (key_of hexdigest w args) serves.entry d =
          coherent (key_of hexdigest w args) serves.entry serves.found in
        F.one_answer w a.wrap args a.args d registered a.registered (sym a.key)
        ∙ a.answer
        ∙ ap (λ (x : Bytes). ok (codec.loads x)) serves.carries

    Coherent-write :
        (d : D) (m : Ideal) (later : ℕ) (a : A) (tags : List String)
        → Coherent codec hexdigest Q m d
        → Q.read w args d ≡ ok a
        → render_tags w args ≡ ok tags
        → Coherent codec hexdigest Q
            (write
              (key_of hexdigest w args)
              (entry_of later
                (C.lifetime w.profile_name w.profile.ttl_seconds)
                (write_of B codec hexdigest w args a tags))
              m)
            d
    Coherent-write d m later a tags coherent answer rendered k e at =
        let key = key_of hexdigest w args in
        let new =
          entry_of later (C.lifetime w.profile_name w.profile.ttl_seconds)
            (write_of B codec hexdigest w args a tags) in
        elim (text_cases key k) [
          | inl same ↦
              let own : new ≡ e = hit_inv key k new e (m k) same at in
              subst (λ (x : Entry). Answers codec hexdigest Q k x d) own
                (record {
                  wrap = w;
                  args = args;
                  registered = registered;
                  key = same;
                  rule = refl;
                  tags = rendered;
                  answer = answer ∙ ap ok (sym (F.loads-dumps a));
                })
          | inr differs ↦ coherent k e (miss_inv key k new e (m k) differs at)
        ]

    module _ (key : C.IsKey (key_of hexdigest w args)) (d : D) (m : Ideal) where
      store_result-CorrectRead :
          (later : ℕ) (a : A) (s : S)
          → Q.read w args d ≡ ok a
          → C.Models s m
          → Coherent codec hexdigest Q m d
          → CorrectRead
              (Q.read w args d)
              d
              (let (r, s') = store_result B codec hexdigest later w args a s in (r, (s', d)))
      unfolding store_result
      store_result-CorrectRead later a s answer models coherent =
          elim (Result-cases (render_tags w args)) [
            | inr (e, failed) ↦
                rw (failed, store_result) (raised (Q.read w args d) d e s m models coherent)
            | inl (tags, rendered) ↦
                let wr = write_of B codec hexdigest w args a tags in
                let s' = (B.set_with_indexes later wr s).1 in
                let stored = C.set_with_indexes-Models s m later wr key models in
                elim (Result-cases (B.set_with_indexes later wr s).0) [
                  | inr (e, failed) ↦
                      rw (rendered, failed, store_result)
                        (raised (Q.read w args d) d e s' m (rw failed at stored) coherent)
                  | inl (u, fine) ↦
                      rw (rendered, fine, store_result)
                        (record {
                          result = inl (sym answer);
                          database = refl;
                          ideal = _;
                          models = rw fine at stored;
                          coherent = Coherent-write d m later a tags coherent answer rendered;
                        })
                ]
          ]

      on_miss-CorrectRead :
          (later : ℕ) (s : S)
          → C.Models s m
          → Coherent codec hexdigest Q m d
          → CorrectRead
              (Q.read w args d)
              d
              (on_miss B codec hexdigest later w (inner Q w) args (s, d))
      unfolding on_miss
      on_miss-CorrectRead later s models coherent = elim (Result-cases (Q.read w args d)) [
        | inr (e, failed) ↦ rw (failed, on_miss) (raised (raise e) d e s m models coherent)
        | inl (a, answer) ↦
            let stored = store_result-CorrectRead later a s answer models coherent in
            rw (answer, on_miss) (rw answer at stored)
      ]

      -- Over a backend that keeps its contract, where queries with one key have one answer and a
      -- stored answer is read back: a read by a registered query under a key that the backend
      -- takes, in a state that stands for a coherent ideal cache, comes back with the database's
      -- answer to it, error or not, or raises another error; it leaves the database as it is, and
      -- a state that stands for a coherent ideal cache.
      pub wrapped-CorrectRead :
          (now later : ℕ) (s : S)
          → C.Models s m
          → Coherent codec hexdigest Q m d
          → CorrectRead
              (Q.read w args d)
              d
              (wrapped B codec hexdigest now later w (inner Q w) args (s, d))
      unfolding wrapped
      wrapped-CorrectRead now later s models coherent =
          elim (Result-cases (B.get now (key_of hexdigest w args) s).0) [
            | inr (e, failed) ↦
                rw (failed, wrapped)
                  (raised (Q.read w args d) d e (B.get now (key_of hexdigest w args) s).1 m
                    (C.get-Models s m now (key_of hexdigest w args) models) coherent)
            | inl (none, missed) ↦
                rw (missed, wrapped)
                  (on_miss-CorrectRead later (B.get now (key_of hexdigest w args) s).1
                    (C.get-Models s m now (key_of hexdigest w args) models) coherent)
            | inl (some v, hit) ↦
                let answer =
                  hit-read d m now v coherent
                    (C.get-Serves s m now (key_of hexdigest w args) v key models hit) in
                rw (hit, wrapped)
                  (record {
                    result = inl (sym answer);
                    database = refl;
                    ideal = m;
                    models = C.get-Models s m now (key_of hexdigest w args) models;
                    coherent = coherent;
                  })
          ]

    -- Under the same conditions, when the backend's `get` and its write come back, the tags render
    -- and the database answers, the read comes back with the database's answer.
    pub wrapped-read :
        (d : D) (m : Ideal) (now later : ℕ) (s : S) (o : Option Bytes) (a : A) (tags : List String)
        → C.IsKey (key_of hexdigest w args)
        → C.Models s m
        → Coherent codec hexdigest Q m d
        → (B.get now (key_of hexdigest w args) s).0 ≡ ok o
        → render_tags w args ≡ ok tags
        → (B.set_with_indexes later
            (write_of B codec hexdigest w args a tags)
            (B.get now (key_of hexdigest w args) s).1).0
          ≡ ok tt
        → Q.read w args d ≡ ok a
        → (wrapped B codec hexdigest now later w (inner Q w) args (s, d)).0 ≡ ok a
    unfolding wrapped on_miss store_result
    wrapped-read d m now later s none a tags key models coherent missed rendered fine answer =
        rw (missed, answer, rendered, fine, wrapped, on_miss, store_result)
    wrapped-read d m now later s (some v) a tags key models coherent hit rendered fine answer =
        let served = C.get-Serves s m now (key_of hexdigest w args) v key models hit in
        rw (hit, wrapped) (sym (hit-read d m now v coherent served) ∙ answer)
