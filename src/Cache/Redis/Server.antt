-- ===== src/Cache/Redis/Server.antt =====
-- The Redis commands that redis_backend.py uses: a parameter, with their documented behaviour as laws.
-- The server may evict a payload that has an expiry time before that time; it keeps index sets, which
-- have none (the default policy).
use hse_graduate_qualificati.Base.{
  ℕ, String, ◌≡◌, ◌≢◌, Bool, true, false, Option, none, some, List, ◌==◌, ◌||◌, contains,
  if◌then◌else◌,
}
use hse_graduate_qualificati.Base.Exec.{Error}
use hse_graduate_qualificati.Cache.Backend.{Bytes}
use hse_graduate_qualificati.Cache.Backend.Ideal.{InTime, deadline_after}

pub record RedisServer : Type 1 where
  pub State : Type 0
  -- `GET key` of a string key
  pub get : ℕ → String → State → Option Bytes
  -- `SET key value [EX seconds]`
  pub set : ℕ → String → Bytes → Option ℕ → State → State
  -- `SADD name member`
  pub sadd : String → String → State → State
  -- `SMEMBERS name`
  pub smembers : String → State → List String
  -- `DEL name …`, and the number that it returns
  pub del : List String → State → State
  pub del_count : List String → State → ℕ
  pub flushdb : State → State
  -- Whether a call breaks off at that time: after how many of its commands, and with which error.
  pub breaks : ℕ → State → Option (ℕ × Error)
  -- how many values Lua's `unpack` can push
  pub unpack_limit : ℕ

-- The set of that name has the member.
abbrev pub has_member : (R : RedisServer) → String → String → R.State → Bool
has_member R name member r = contains member (R.smembers name r)

-- A call that breaks off has done nothing.
abbrev pub IsWhole : RedisServer → Type 0
IsWhole R = (now n : ℕ) (r : R.State) (e : Error) → R.breaks now r ≡ some (n, e) → n ≡ 0

pub record RedisLaws (R : RedisServer) : Type 0 where
  pub get-set_self :
      (t t' : ℕ) (k : String) (v : Bytes) (ex : Option ℕ) (r : R.State) {w : Bytes}
      → R.get t' k (R.set t k v ex r) ≡ some w
      → (v ≡ w) × InTime (deadline_after t ex) t'
  pub get-set_ne :
      (t t' : ℕ) (k j : String) (v : Bytes) (ex : Option ℕ) (r : R.State) {w : Bytes}
      → k ≢ j
      → R.get t' j (R.set t k v ex r) ≡ some w
      → R.get t' j r ≡ some w
  pub get-sadd :
      (t : ℕ) (name member k : String) (r : R.State) {w : Bytes}
      → name ≢ k
      → R.get t k (R.sadd name member r) ≡ some w
      → R.get t k r ≡ some w
  pub get-del_hit :
      (t : ℕ) (names : List String) (k : String) (r : R.State)
      → contains k names ≡ true
      → R.get t k (R.del names r) ≡ none
  pub get-del :
      (t : ℕ) (names : List String) (k : String) (r : R.State) {w : Bytes}
      → R.get t k (R.del names r) ≡ some w
      → R.get t k r ≡ some w
  pub get-del_other :
      (t : ℕ) (names : List String) (k : String) (r : R.State)
      → contains k names ≡ false
      → R.get t k (R.del names r) ≡ R.get t k r
  pub get-flushdb : (t : ℕ) (k : String) (r : R.State) → R.get t k (R.flushdb r) ≡ none
  pub member-set :
      (t : ℕ) (k : String) (v : Bytes) (ex : Option ℕ) (name member : String) (r : R.State)
      → k ≢ name
      → has_member R name member (R.set t k v ex r) ≡ has_member R name member r
  pub member-sadd :
      (name n member x : String) (r : R.State)
      → has_member R n x (R.sadd name member r)
        ≡ (if name == n then member == x || has_member R n x r else has_member R n x r)
  pub member-del :
      (names : List String) (n x : String) (r : R.State)
      → has_member R n x (R.del names r) ≡ (if contains n names then false else has_member R n x r)
  pub member-flushdb : (n x : String) (r : R.State) → has_member R n x (R.flushdb r) ≡ false
