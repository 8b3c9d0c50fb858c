-- ===== src/Cache/Backend/History.antt =====
-- Any sequence of calls of a `CacheBackend`, as its clients make them, and what a hit says of it.
use hse_graduate_qualificati.Base.{
  ℕ, All, String, ◌≡◌, ◌≢◌, refl, false, Option, some, List, [], ◌∷◌, text_cases, inl, inr,
  ne_of_differs, hit_inv, miss_inv,
}
use mathlib.Core.Path.{subst, sym, ◌∙◌}
use hse_graduate_qualificati.Base.Exec.{Result, ok, raise}
use hse_graduate_qualificati.Cache.Backend.{Bytes, Write, CacheBackend}
use hse_graduate_qualificati.Cache.Backend.Contract.{Contract, unless_raised}
use hse_graduate_qualificati.Cache.Backend.Ideal.{
  Ideal, Entry, InTime, empty, write, drop_rule, drop_tag, has_rule, has_tag, unless-some, entry_of,
}

-- The calls that the interceptor and the invalidator make, and `flush`.
pub data Call : Type 0 where
  get : String → Call
  set_with_indexes : Write → Call
  del_by_rule : String → Call
  del_by_tag : String → Call
  flush : Call

-- The calls that did not raise, the latest first, each with its time.
abbrev pub Log : Type 0
Log = List (ℕ × Call)

abbrev pub logged {ℓ} : {A : Type ℓ} → Result A → ℕ × Call → Log → Log
logged (ok a) entry log = entry ∷ log
logged (raise e) entry log = log

-- What a later call does not do to the entry of `k`.
abbrev pub Harmless : String → Entry → Call → Type 0
Harmless k e (get j) = Unit
Harmless k e (set_with_indexes w) = w.key ≢ k
Harmless k e (del_by_rule r) = has_rule r e ≡ false
Harmless k e (del_by_tag t) = has_tag t e ≡ false
Harmless k e flush = ⊥

-- In this log `e` is the last write of `k`, and no call after it has invalidated its rule or one of
-- its tags.
pub data Fresh (lifetime : String → ℕ → Option ℕ) (k : String) (e : Entry) : Log → Type 0 where
  written :
      {t : ℕ} {w : Write} {log : Log}
      → w.key ≡ k
      → entry_of t (lifetime w.profile_name w.ttl) w ≡ e
      → Fresh lifetime k e ((t, set_with_indexes w) ∷ log)
  later :
      {t : ℕ} {c : Call} {log : Log}
      → Harmless k e c
      → Fresh lifetime k e log
      → Fresh lifetime k e ((t, c) ∷ log)

module _ {S : Type 0} (B : CacheBackend S) where
  -- One call: the state after it, and the log.
  unfoldable pub call : ℕ × Call → S × Log → S × Log
  call (t, get k) (s, log) = ((B.get t k s).1, logged (B.get t k s).0 (t, get k) log)
  call (t, set_with_indexes w) (s, log) = (
    (B.set_with_indexes t w s).1,
    logged (B.set_with_indexes t w s).0 (t, set_with_indexes w) log,
  )
  call (t, del_by_rule r) (s, log) =
      ((B.del_by_rule t r s).1, logged (B.del_by_rule t r s).0 (t, del_by_rule r) log)
  call (t, del_by_tag tag) (s, log) =
      ((B.del_by_tag t tag s).1, logged (B.del_by_tag t tag s).0 (t, del_by_tag tag) log)
  call (t, flush) (s, log) = ((B.flush s).1, logged (B.flush s).0 (t, flush) log)

  unfoldable pub run : List (ℕ × Call) → S × Log → S × Log
  run [] at = at
  run (c ∷ calls) at = run calls (call c at)

module _ (lifetime : String → ℕ → Option ℕ) where
  abbrev ideal_call : ℕ → Call → Ideal → Ideal
  ideal_call t (get k) m = m
  ideal_call t (set_with_indexes w) m = write w.key (entry_of t (lifetime w.profile_name w.ttl) w) m
  ideal_call t (del_by_rule r) m = drop_rule r m
  ideal_call t (del_by_tag tag) m = drop_tag tag m
  ideal_call t flush m = empty

  -- The ideal cache after the calls of a log.
  abbrev pub ideal_of : Log → Ideal
  ideal_of [] = empty
  ideal_of ((t, c) ∷ log) = ideal_call t c (ideal_of log)

  pub ideal_of-Fresh :
      (k : String) (e : Entry) (log : Log) → ideal_of log k ≡ some e → Fresh lifetime k e log
  ideal_of-Fresh k e [] h = cc
  ideal_of-Fresh k e ((t, get j) ∷ log) h = later tt (ideal_of-Fresh k e log h)
  ideal_of-Fresh k e ((t, set_with_indexes w) ∷ log) h = elim (text_cases w.key k) [
    | inl same ↦
        written same
          (hit_inv w.key k (entry_of t (lifetime w.profile_name w.ttl) w) e (ideal_of log k) same h)
    | inr differs ↦ later (ne_of_differs w.key k differs) (
        ideal_of-Fresh k e log (
          miss_inv w.key k (entry_of t (lifetime w.profile_name w.ttl) w) e (ideal_of log k) differs
            h))
  ]
  ideal_of-Fresh k e ((t, del_by_rule r) ∷ log) h =
      let (found, stays) = unless-some (has_rule r) (ideal_of log k) e h in
      later stays (ideal_of-Fresh k e log found)
  ideal_of-Fresh k e ((t, del_by_tag tag) ∷ log) h =
      let (found, stays) = unless-some (has_tag tag) (ideal_of log k) e h in
      later stays (ideal_of-Fresh k e log found)
  ideal_of-Fresh k e ((t, flush) ∷ log) h = cc

-- At `now` a hit of `v` for `k` is justified by the log.
pub record Justified (lifetime : String → ℕ → Option ℕ) (log : Log) (now : ℕ) (k : String)
    (v : Bytes) : Type 0 where
  pub entry : Entry
  pub fresh : Fresh lifetime k entry log
  pub carries : entry.value ≡ v
  pub in_time : InTime entry.deadline now

-- A call that raises is not in the log.
ideal_of-logged {ℓ} :
    {A : Type ℓ} (lifetime : String → ℕ → Option ℕ) (r : Result A) (t : ℕ) (c : Call) (log : Log)
    → ideal_of lifetime (logged r (t, c) log)
      ≡ unless_raised r (ideal_call lifetime t c (ideal_of lifetime log)) (ideal_of lifetime log)
ideal_of-logged lifetime (ok a) t c log = refl
ideal_of-logged lifetime (raise e) t c log = refl

unless_raised_same {ℓ κ} :
    {A : Type ℓ} {B : Type κ} (r : Result A) (b : B) → unless_raised r b b ≡ b
unless_raised_same (ok a) b = refl
unless_raised_same (raise e) b = refl

module _ {S : Type 0} (B : CacheBackend S) (C : Contract B) where
  abbrev IsTracked : S × Log → Type 0
  IsTracked (s, log) = C.Models s (ideal_of C.lifetime log)

  -- the keys of a call's arguments
  abbrev pub HasKey : ℕ × Call → Type 0
  HasKey (t, set_with_indexes w) = C.IsKey w.key
  HasKey (t, _) = Unit

  call-IsTracked :
      (c : ℕ × Call) (s : S) (log : Log)
      → HasKey c
      → IsTracked (s, log)
      → IsTracked (call B c (s, log))
  unfolding call
  call-IsTracked (t, get k) s log _ h =
      let m = ideal_of C.lifetime log in
      let r = (B.get t k s).0 in
      subst (C.Models (B.get t k s).1)
        (sym (ideal_of-logged C.lifetime r t (get k) log ∙ unless_raised_same r m))
        (C.get-Models s m t k h)
  call-IsTracked (t, set_with_indexes w) s log key h =
      subst (C.Models (B.set_with_indexes t w s).1)
        (sym (ideal_of-logged C.lifetime (B.set_with_indexes t w s).0 t (set_with_indexes w) log))
        (C.set_with_indexes-Models s (ideal_of C.lifetime log) t w key h)
  call-IsTracked (t, del_by_rule r) s log _ h =
      subst (C.Models (B.del_by_rule t r s).1)
        (sym (ideal_of-logged C.lifetime (B.del_by_rule t r s).0 t (del_by_rule r) log))
        (C.del_by_rule-Models s (ideal_of C.lifetime log) t r h)
  call-IsTracked (t, del_by_tag tag) s log _ h =
      subst (C.Models (B.del_by_tag t tag s).1)
        (sym (ideal_of-logged C.lifetime (B.del_by_tag t tag s).0 t (del_by_tag tag) log))
        (C.del_by_tag-Models s (ideal_of C.lifetime log) t tag h)
  call-IsTracked (t, flush) s log _ h =
      subst (C.Models (B.flush s).1) (sym (ideal_of-logged C.lifetime (B.flush s).0 t flush log))
        (C.flush-Models s (ideal_of C.lifetime log) h)

  run-IsTracked :
      (calls : List (ℕ × Call)) (s : S) (log : Log)
      → All HasKey calls
      → IsTracked (s, log)
      → IsTracked (run B calls (s, log))
  unfolding run
  run-IsTracked [] s log _ h = h
  run-IsTracked (c ∷ calls) s log keys h =
      let next = call B c (s, log) in
      run-IsTracked calls next.0 next.1 keys.1 (call-IsTracked c s log keys.0 h)

  -- From an empty cache, after any calls, a hit is the last value written for its key; no later call
  -- that came back has invalidated that write's rule or one of its tags, and its time is not over.
  pub hit-Justified :
      (calls : List (ℕ × Call)) (s : S) (now : ℕ) (k : String) (v : Bytes)
      → C.IsKey k
      → All HasKey calls
      → C.Models s empty
      → (B.get now k (run B calls (s, [])).0).0 ≡ ok (some v)
      → Justified C.lifetime (run B calls (s, [])).1 now k v
  hit-Justified calls s now k v key keys h hit =
      let (s', log) = run B calls (s, []) in
      let serves =
        C.get-Serves s' (ideal_of C.lifetime log) now k v key (run-IsTracked calls s [] keys h)
          hit in
      record {
        entry = serves.entry;
        fresh = ideal_of-Fresh C.lifetime k serves.entry log serves.found;
        carries = serves.carries;
        in_time = serves.in_time;
      }
