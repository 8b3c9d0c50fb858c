-- ===== src/Cache/Ttl.antt =====
-- `cachetools.TTLCache`, a library: its operations are a parameter, and its documented behaviour is
-- a record of laws. A cache may drop entries at any time to stay within its size, and drops an entry
-- whose time to live is over; an infinite time to live (`math.inf`) is `none`.
use hse_graduate_qualificati.Base.{ℕ, ◌<◌, ◌≤◌, String, ◌≡◌, ◌≢◌, Option, none, some}
use hse_graduate_qualificati.Cache.Backend.{Bytes}
use hse_graduate_qualificati.Cache.Backend.Ideal.{InTime, deadline_after}

pub record TtlCaches : Type 1 where
  pub Cache : Type 0
  -- `TTLCache(maxsize=…, ttl=…)`
  pub new : ℕ → Option ℕ → Cache
  -- `cache.get(key)`; a read may reorder the entries or drop expired ones
  pub get : ℕ → String → Cache → Option Bytes × Cache
  -- `cache[key] = value`
  pub set : ℕ → String → Bytes → Cache → Cache
  -- `cache.pop(key, None)`
  pub pop : ℕ → String → Cache → Cache
  -- `cache.clear()`
  pub clear : Cache → Cache
  -- the attributes `maxsize` and `ttl`
  pub maxsize : Cache → ℕ
  pub ttl : Cache → Option ℕ

module _ (T : TtlCaches) where
  -- What a read of `k` at `now` returns.
  abbrev pub peek : ℕ → String → T.Cache → Option Bytes
  peek now k c = (T.get now k c).0

  abbrev pub SameConfig : T.Cache → T.Cache → Type 0
  SameConfig c c' = (T.ttl c ≡ T.ttl c') × (T.maxsize c ≡ T.maxsize c')

  pub record TtlLaws : Type 0 where
    pub peek-new :
        (size : ℕ) (ttl : Option ℕ) (t : ℕ) (k : String) → peek t k (T.new size ttl) ≡ none
    pub peek-clear : (t : ℕ) (k : String) (c : T.Cache) → peek t k (T.clear c) ≡ none
    pub peek-get :
        (t t' : ℕ) (k j : String) (c : T.Cache) {w : Bytes}
        → peek t' j (T.get t k c).1 ≡ some w
        → peek t' j c ≡ some w
    pub peek-pop_self : (t t' : ℕ) (k : String) (c : T.Cache) → peek t' k (T.pop t k c) ≡ none
    pub peek-pop :
        (t t' : ℕ) (k j : String) (c : T.Cache) {w : Bytes}
        → peek t' j (T.pop t k c) ≡ some w
        → peek t' j c ≡ some w
    pub peek-pop_ne :
        (t t' : ℕ) (k j : String) (c : T.Cache)
        → k ≢ j
        → t ≤ t'
        → peek t' j (T.pop t k c) ≡ peek t' j c
    pub peek-set_self :
        (t t' : ℕ) (k : String) (v : Bytes) (c : T.Cache) {w : Bytes}
        → peek t' k (T.set t k v c) ≡ some w
        → (v ≡ w) × InTime (deadline_after t (T.ttl c)) t'
    pub peek-set_ne :
        (t t' : ℕ) (k j : String) (v : Bytes) (c : T.Cache) {w : Bytes}
        → k ≢ j
        → peek t' j (T.set t k v c) ≡ some w
        → peek t' j c ≡ some w
    -- what has just been stored is there while its time to live lasts
    pub peek-set :
        (t t' : ℕ) (k : String) (v : Bytes) (c : T.Cache)
        → 0 < T.maxsize c
        → t ≤ t'
        → InTime (deadline_after t (T.ttl c)) t'
        → peek t' k (T.set t k v c) ≡ some v
    -- the attributes never change
    pub config-new :
        (size : ℕ) (ttl : Option ℕ)
        → (T.ttl (T.new size ttl) ≡ ttl) × (T.maxsize (T.new size ttl) ≡ size)
    pub config-get : (t : ℕ) (k : String) (c : T.Cache) → SameConfig (T.get t k c).1 c
    pub config-set : (t : ℕ) (k : String) (v : Bytes) (c : T.Cache) → SameConfig (T.set t k v c) c
    pub config-pop : (t : ℕ) (k : String) (c : T.Cache) → SameConfig (T.pop t k c) c
    pub config-clear : (c : T.Cache) → SameConfig (T.clear c) c
