-- ===== src/Cache/Redis/Writes.antt =====
-- `set_with_indexes` of redis_backend.py, against the ideal cache.
use hse_graduate_qualificati.Base.{
  ℕ, String, ◌≡◌, ◌≢◌, sym, Bool, true, ◌||◌, some, List, [], ◌∷◌, ◌==◌, eq_refl, arith, contains,
  if◌then◌else◌, text_cases, inl, inr, ◌⊎◌, hit_inv, miss_inv, ne_of_differs,
}
use mathlib.Core.Path.{subst, subst₂}
use hse_graduate_qualificati.Cache.Backend.{Bytes, Write}
use hse_graduate_qualificati.Cache.Backend.Ideal.{
  Ideal, Entry, Serves, Serves-same, has_rule, has_tag, write, entry_of, has_rule-entry_of,
}
use hse_graduate_qualificati.Cache.Redis.{
  rule_index_key, tag_index_key, expiry, sadd_tags, run_commands,
}
use hse_graduate_qualificati.Cache.Redis.Models.{Holds}
use hse_graduate_qualificati.Cache.Redis.Names.{IsPayloadKey}
use hse_graduate_qualificati.Cache.Redis.Server.{RedisServer, RedisLaws, has_member}

module _ (R : RedisServer) (L : RedisLaws R) where
  member-sadd_mono :
      (name n member x : String) (r : R.State)
      → has_member R n x r ≡ true
      → has_member R n x (R.sadd name member r) ≡ true
  member-sadd_mono name n member x r h = rw (L.member-sadd, h) (ground arith)

  member-sadd_self :
      (name member : String) (r : R.State) → has_member R name member (R.sadd name member r) ≡ true
  member-sadd_self name member r = rw (L.member-sadd, eq_refl name, eq_refl member)

  member-sadd_inv :
      (name n member x : String) (r : R.State)
      → has_member R n x (R.sadd name member r) ≡ true
      → (member ≡ x) ⊎ (has_member R n x r ≡ true)
  member-sadd_inv name n member x r h = elim (text_cases member x) [
    | inl same ↦ inl same
    | inr differs ↦
        let e : (if name == n then member == x || has_member R n x r else has_member R n x r)
            ≡ true =
          rw L.member-sadd at h in
        inr (ground (arith, e))
  ]

  sadd_tags_mono :
      (tags : List String) (n key x : String) (r : R.State)
      → has_member R n x r ≡ true
      → has_member R n x (run_commands R (sadd_tags R tags key) r) ≡ true
  unfolding sadd_tags run_commands
  sadd_tags_mono [] n key x r h = h
  sadd_tags_mono (tag ∷ tags) n key x r h =
      sadd_tags_mono tags n key x (R.sadd (tag_index_key tag) key r)
        (member-sadd_mono (tag_index_key tag) n key x r h)

  sadd_tags_lem :
      (tags : List String) (tag key : String) (r : R.State)
      → contains tag tags ≡ true
      → has_member R (tag_index_key tag) key (run_commands R (sadd_tags R tags key) r) ≡ true
  unfolding sadd_tags run_commands contains
  sadd_tags_lem [] tag key r h = cc
  sadd_tags_lem (t ∷ tags) tag key r h = elim (text_cases t tag) [
    | inl same ↦ sadd_tags_mono tags (tag_index_key tag) key key (R.sadd (tag_index_key t) key r) (
        subst (λ q. has_member R (tag_index_key q) key (R.sadd (tag_index_key t) key r) ≡ true) same
          (member-sadd_self (tag_index_key t) key r))
    | inr differs ↦ sadd_tags_lem tags tag key (R.sadd (tag_index_key t) key r) (rw differs at h)
  ]

  sadd_tags_inv :
      (tags : List String) (n key x : String) (r : R.State)
      → has_member R n x (run_commands R (sadd_tags R tags key) r) ≡ true
      → (key ≡ x) ⊎ (has_member R n x r ≡ true)
  unfolding sadd_tags run_commands
  sadd_tags_inv [] n key x r h = inr h
  sadd_tags_inv (tag ∷ tags) n key x r h =
      elim (sadd_tags_inv tags n key x (R.sadd (tag_index_key tag) key r) h) [
        | inl own ↦ inl own
        | inr before ↦ member-sadd_inv (tag_index_key tag) n key x r before
      ]

  get-sadd_tags :
      (tags : List String) (now : ℕ) (key k : String) (v : Bytes) (r : R.State)
      → IsPayloadKey k
      → R.get now k (run_commands R (sadd_tags R tags key) r) ≡ some v
      → R.get now k r ≡ some v
  unfolding sadd_tags run_commands
  get-sadd_tags [] now key k v r payload h = h
  get-sadd_tags (tag ∷ tags) now key k v r payload h =
      L.get-sadd now (tag_index_key tag) key k r (payload.not_tag tag)
        (get-sadd_tags tags now key k v (R.sadd (tag_index_key tag) key r) payload h)

  module _ (r : R.State) (m : Ideal) (now : ℕ) (w : Write) where
    abbrev stored : R.State
    stored = R.set now w.key w.value (expiry w.ttl) r

    abbrev ruled : R.State
    ruled = R.sadd (rule_index_key w.rule) w.key stored

    abbrev pub after_pipeline : R.State
    after_pipeline = run_commands R (sadd_tags R w.tags w.key) ruled

    abbrev new_entry : Entry
    new_entry = entry_of now (expiry w.ttl) w

    served_after :
        IsPayloadKey w.key
        → Holds R r m
        → (t : ℕ) (k : String) (v : Bytes) → IsPayloadKey k
        → R.get t k stored ≡ some v
        → Serves (write w.key new_entry m) t k v
    served_after key h t k v payload found = elim (text_cases w.key k) [
      | inl same ↦
          let (value, alive) =
            L.get-set_self now t w.key w.value (expiry w.ttl) r
              (subst (λ j. R.get t j stored ≡ some v) (sym same) found) in
          record {
            entry = new_entry;
            found = rw (same, eq_refl k);
            carries = value;
            in_time = alive;
          }
      | inr differs ↦ Serves-same (write w.key new_entry m) m t k v (rw differs) (
          h.served t k v payload (
            L.get-set_ne now t w.key k w.value (expiry w.ttl) r (ne_of_differs w.key k differs)
              found))
    ]

    member-stored :
        (n x : String) → w.key ≢ n → has_member R n x r ≡ true → has_member R n x stored ≡ true
    member-stored n x other h = rw (L.member-set now w.key w.value (expiry w.ttl) n x r other) h

    member-after :
        (n x : String)
        → w.key ≢ n
        → has_member R n x r ≡ true
        → has_member R n x after_pipeline ≡ true
    member-after n x other h =
        sadd_tags_mono w.tags n w.key x ruled
          (member-sadd_mono (rule_index_key w.rule) n w.key x stored (member-stored n x other h))

    member_before :
        (n x : String)
        → w.key ≢ n
        → has_member R n x after_pipeline ≡ true
        → (w.key ≡ x) ⊎ (has_member R n x r ≡ true)
    member_before n x other h = elim (sadd_tags_inv w.tags n w.key x ruled h) [
      | inl own ↦ inl own
      | inr in_ruled ↦ elim (member-sadd_inv (rule_index_key w.rule) n w.key x stored in_ruled) [
        | inl own ↦ inl own
        | inr in_stored ↦ inr (
            subst (λ (b : Bool). b ≡ true)
              (L.member-set now w.key w.value (expiry w.ttl) n x r other) in_stored)
      ]
    ]

    members_after :
        (n x : String)
        → w.key ≢ n
        → IsPayloadKey w.key
        → (has_member R n x r ≡ true → IsPayloadKey x)
        → has_member R n x after_pipeline ≡ true
        → IsPayloadKey x
    members_after n x other key before h = elim (member_before n x other h) [
      | inl own ↦ subst IsPayloadKey own key
      | inr there ↦ before there
    ]

    -- After the pipeline the server stands for the ideal cache with the entry.
    pub after_pipeline-Holds :
        IsPayloadKey w.key → Holds R r m → Holds R after_pipeline (write w.key new_entry m)
    after_pipeline-Holds key h = record {
      served = λ t k v payload found. served_after key h t k v payload (
          L.get-sadd t (rule_index_key w.rule) w.key k stored (payload.not_rule w.rule)
            (get-sadd_tags w.tags t w.key k v ruled payload found));
      ruled = λ k rule e at has. elim (text_cases w.key k) [
        | inl same ↦
            let x : new_entry ≡ e = hit_inv w.key k new_entry e (m k) same at in
            let own : w.rule ≡ rule =
              has_rule-entry_of now (expiry w.ttl) w rule
                (subst (λ y. has_rule rule y ≡ true) (sym x) has) in
            sadd_tags_mono w.tags (rule_index_key rule) w.key k ruled (
              subst₂ (λ q j. has_member R (rule_index_key q) j ruled ≡ true) own same
                (member-sadd_self (rule_index_key w.rule) w.key stored))
        | inr differs ↦
            member-after (rule_index_key rule) k (λ same. key.not_rule rule (sym same))
              (h.ruled k rule e (miss_inv w.key k new_entry e (m k) differs at) has)
      ];
      tagged = λ k tag e at has. elim (text_cases w.key k) [
        | inl same ↦
            let x : new_entry ≡ e = hit_inv w.key k new_entry e (m k) same at in
            let own : contains tag w.tags ≡ true = subst (λ y. has_tag tag y ≡ true) (sym x) has in
            subst (λ j. has_member R (tag_index_key tag) j after_pipeline ≡ true) same
              (sadd_tags_lem w.tags tag w.key ruled own)
        | inr differs ↦
            member-after (tag_index_key tag) k (λ same. key.not_tag tag (sym same))
              (h.tagged k tag e (miss_inv w.key k new_entry e (m k) differs at) has)
      ];
      rule_members = λ rule k.
          members_after (rule_index_key rule) k (λ same. key.not_rule rule (sym same)) key
            (h.rule_members rule k);
      tag_members = λ tag k.
          members_after (tag_index_key tag) k (λ same. key.not_tag tag (sym same)) key
            (h.tag_members tag k);
    }
