-- ===== src/Cache/Backend/Contract.antt =====
-- What a client may rely on: the implementation simulates the ideal cache. It may forget entries,
-- and never serves what the ideal cache would not.
use hse_graduate_qualificati.Base.{ℕ, String, ◌≡◌, Option, some}
use hse_graduate_qualificati.Base.Exec.{Result, ok, raise}
use hse_graduate_qualificati.Cache.Backend.{Bytes, Write, CacheBackend}
use hse_graduate_qualificati.Cache.Backend.Ideal.{
  Ideal, Serves, empty, write, drop_rule, drop_tag, entry_of,
}

-- The ideal cache after a method that has come back, or has raised.
abbrev pub unless_raised {ℓ κ} : {A : Type ℓ} {B : Type κ} → Result A → B → B → B
unless_raised (ok a) new old = new
unless_raised (raise e) new old = old

-- A method that raises leaves a state for the same ideal cache. `IsKey` is what the implementation
-- asks of a key, so that the keys and its own names do not collide.
pub record Contract {S : Type 0} (B : CacheBackend S) : Type 1 where
  -- the implementation's state stands for the ideal one
  pub Models : S → Ideal → Type 0
  pub IsKey : String → Type 0
  -- the time to live that a production write gets, from its profile and `ttl` argument
  pub lifetime : String → ℕ → Option ℕ
  pub get-Serves :
      (s : S) (m : Ideal) (now : ℕ) (k : String) (v : Bytes)
      → IsKey k
      → Models s m
      → (B.get now k s).0 ≡ ok (some v)
      → Serves m now k v
  pub get-Models :
      (s : S) (m : Ideal) (now : ℕ) (k : String) → Models s m → Models (B.get now k s).1 m
  pub set_with_indexes-Models :
      (s : S) (m : Ideal) (now : ℕ) (w : Write)
      → IsKey w.key
      → Models s m
      → Models (B.set_with_indexes now w s).1 (
          unless_raised
            (B.set_with_indexes now w s).0
            (write w.key (entry_of now (lifetime w.profile_name w.ttl) w) m)
            m)
  pub del_by_rule-Models :
      (s : S) (m : Ideal) (now : ℕ) (rule : String)
      → Models s m
      → Models
          (B.del_by_rule now rule s).1
          (unless_raised (B.del_by_rule now rule s).0 (drop_rule rule m) m)
  pub del_by_tag-Models :
      (s : S) (m : Ideal) (now : ℕ) (tag : String)
      → Models s m
      → Models
          (B.del_by_tag now tag s).1
          (unless_raised (B.del_by_tag now tag s).0 (drop_tag tag m) m)
  pub flush-Models :
      (s : S) (m : Ideal) → Models s m → Models (B.flush s).1 (unless_raised (B.flush s).0 empty m)
