-- ===== src/Cache/Redis/Script.antt =====
-- The Lua script of redis_backend.py, when it comes back.
use hse_graduate_qualificati.Base.{
  ℕ, String, ◌≡◌, ◌≢◌, refl, true, false, some, List, [], ◌∷◌, arith, contains, length, ltb,
  Bool-cases, inl, inr, differs_of_ne,
}
use hse_graduate_qualificati.Base.Exec.{ok}
use hse_graduate_qualificati.Cache.Backend.{Bytes}
use hse_graduate_qualificati.Cache.Redis.{del_by_index}
use hse_graduate_qualificati.Cache.Redis.Server.{RedisServer, RedisLaws, has_member}

not-contains_of_empty :
    (k : String) (l : List String) → ltb 0 (length l) ≡ false → contains k l ≡ false
unfolding contains
not-contains_of_empty k [] h = refl
not-contains_of_empty k (x ∷ l) h = ground arith

pub not-contains-other : (name n : String) → name ≢ n → contains n (name ∷ []) ≡ false
unfolding contains
not-contains-other name n h = rw (differs_of_ne name n h)

module _ (R : RedisServer) where
  -- `r'` is `r` without the payloads of the set's members, and without the set.
  pub record Removed (name : String) (r' r : R.State) : Type 0 where
    pub shown :
        (now : ℕ) (k : String) (v : Bytes)
        → R.get now k r' ≡ some v
        → (R.get now k r ≡ some v) × (has_member R name k r ≡ false)
    pub kept :
        (n x : String)
        → name ≢ n
        → has_member R name n r ≡ false
        → has_member R n x r' ≡ has_member R n x r
    pub no_more : (n x : String) → has_member R n x r' ≡ true → has_member R n x r ≡ true

  -- When the script raises it has done nothing.
  pub del_by_index_raised :
      (name : String) (r : R.State)
      → ((n : ℕ) → (del_by_index R name r).0 ≢ ok n)
      → (del_by_index R name r).1 ≡ r
  unfolding del_by_index
  del_by_index_raised name r failed = elim (Bool-cases (ltb 0 (length (R.smembers name r)))) [
    | inr empty ↦ absurd (failed 0 (rw (empty, del_by_index)))
    | inl some_member ↦ elim (Bool-cases (ltb R.unpack_limit (length (R.smembers name r)))) [
      | inl too_many ↦ rw (some_member, too_many, del_by_index)
      | inr fits ↦
          absurd (failed (R.del_count (R.smembers name r) r) (rw (some_member, fits, del_by_index)))
    ]
  ]

  module _ (L : RedisLaws R) where
    no_more-del :
        (names : List String) (r : R.State) (n x : String)
        → has_member R n x (R.del names r) ≡ true
        → has_member R n x r ≡ true
    no_more-del names r n x h = elim (Bool-cases (contains n names)) [
      | inl gone ↦ cc (rw (L.member-del, gone) at h)
      | inr there ↦ rw (L.member-del, there) at h
    ]

    Removed-empty :
        (name : String) (r : R.State)
        → ltb 0 (length (R.smembers name r)) ≡ false
        → Removed name (R.del (name ∷ []) r) r
    Removed-empty name r empty = record {
      shown = λ now k v h.
          (L.get-del now (name ∷ []) k r h, not-contains_of_empty k (R.smembers name r) empty);
      kept = λ n x other free. rw (L.member-del, not-contains-other name n other);
      no_more = no_more-del (name ∷ []) r;
    }

    shown-del :
        (members : List String) (r : R.State) (now : ℕ) (k : String) (v : Bytes)
        → R.get now k (R.del members r) ≡ some v
        → contains k members ≡ false
    shown-del members r now k v h = elim (Bool-cases (contains k members)) [
      | inl gone ↦ cc (L.get-del_hit now members k r gone, h)
      | inr there ↦ there
    ]

    Removed-members :
        (name : String) (r : R.State)
        → Removed name (R.del (name ∷ []) (R.del (R.smembers name r) r)) r
    Removed-members name r =
        let members = R.smembers name r in
        record {
          shown = λ now k v h.
              let h' = L.get-del now (name ∷ []) k (R.del members r) h in
              (L.get-del now members k r h', shown-del members r now k v h');
          kept = λ n x other free.
              rw (L.member-del, not-contains-other name n other, L.member-del, free);
          no_more =
              λ n x h. no_more-del members r n x (no_more-del (name ∷ []) (R.del members r) n x h);
        }

    -- The script takes the members' payloads and the set away, and no other set.
    pub del_by_index-Removed :
        (name : String) (r : R.State) (n : ℕ)
        → (del_by_index R name r).0 ≡ ok n
        → Removed name (del_by_index R name r).1 r
    unfolding del_by_index
    del_by_index-Removed name r n fine = elim (Bool-cases (ltb 0 (length (R.smembers name r)))) [
      | inr empty ↦ rw (empty, del_by_index) (Removed-empty name r empty)
      | inl some_member ↦ elim (Bool-cases (ltb R.unpack_limit (length (R.smembers name r)))) [
        | inl too_many ↦ cc (rw (some_member, too_many, del_by_index) at fine)
        | inr fits ↦ rw (some_member, fits, del_by_index) (Removed-members name r)
      ]
    ]
