-- ===== src/Cache/Backend/Ideal.antt =====
-- The abstract cache: for each key the entry that was written last, with the rule and the tags that
-- it was written under, until it is invalidated. It has no indexes, no eviction and no clock; an
-- entry only carries the time at which it must be gone.
use hse_graduate_qualificati.Base.{
  ℕ, ◌+◌, ◌<◌, String, ◌≡◌, Bool, false, Option, none, some, List, [], ◌==◌, contains,
  if◌then◌else◌, ◌∙◌, true, refl, ap, Bool-cases, inl, inr, arith, eq_iff,
}
use mathlib.Core.Path.{subst}
use hse_graduate_qualificati.Cache.Backend.{Bytes, Write}

pub record Entry : Type 0 where
  pub value : Bytes
  pub rule : Option String
  pub tags : List String
  pub deadline : Option ℕ

abbrev pub Ideal : Type 0
Ideal = String → Option Entry

abbrev pub empty : Ideal
empty k = none

abbrev pub write : String → Entry → Ideal → Ideal
write k e m j = if k == j then some e else m j

abbrev pub erase : String → Ideal → Ideal
erase k m j = if k == j then none else m j

abbrev pub has_rule : String → Entry → Bool
has_rule r e = elim e.rule [ none ↦ false | some q ↦ q == r ]

abbrev pub has_tag : String → Entry → Bool
has_tag t e = contains t e.tags

abbrev pub unless : (Entry → Bool) → Option Entry → Option Entry
unless p none = none
unless p (some e) = if p e then none else some e

-- Every entry with the rule, or with the tag, is gone.
abbrev pub drop_rule : String → Ideal → Ideal
drop_rule r m j = unless (has_rule r) (m j)

abbrev pub drop_tag : String → Ideal → Ideal
drop_tag t m j = unless (has_tag t) (m j)

abbrev pub deadline_after : ℕ → Option ℕ → Option ℕ
deadline_after now none = none
deadline_after now (some d) = some (now + d)

-- The entry of a production write, with `lifetime` the time to live that the backend gives it.
abbrev pub entry_of : ℕ → Option ℕ → Write → Entry
entry_of now lifetime w = record {
  value = w.value;
  rule = some w.rule;
  tags = w.tags;
  deadline = deadline_after now lifetime;
}

-- The entry of a plain `set`, which belongs to no rule and carries no tag.
abbrev pub plain_entry : ℕ → Option ℕ → Bytes → Entry
plain_entry now lifetime v = record {
  value = v;
  rule = none;
  tags = [];
  deadline = deadline_after now lifetime;
}

abbrev pub InTime : Option ℕ → ℕ → Type 0
InTime none now = Unit
InTime (some d) now = now < d

-- At `now` the ideal cache may serve `v` for `k`.
pub record Serves (m : Ideal) (now : ℕ) (k : String) (v : Bytes) : Type 0 where
  pub entry : Entry
  pub found : m k ≡ some entry
  pub carries : entry.value ≡ v
  pub in_time : InTime entry.deadline now

-- Only the key's own entry matters.
pub Serves-same :
    (m' m : Ideal) (now : ℕ) (k : String) (v : Bytes)
    → m' k ≡ m k
    → Serves m now k v
    → Serves m' now k v
Serves-same m' m now k v e s = record {
  entry = s.entry;
  found = e ∙ s.found;
  carries = s.carries;
  in_time = s.in_time;
}

some_inj : (x e : Entry) → some x ≡ some e → x ≡ e
some_inj x e h = cc

-- What is left after a deletion was there, and does not have what was deleted.
pub unless-some :
    (test : Entry → Bool) (o : Option Entry) (e : Entry)
    → unless test o ≡ some e
    → (o ≡ some e) × (test e ≡ false)
unless-some test none e h = cc
unless-some test (some x) e h = elim (Bool-cases (test x)) [
  | inl dropped ↦ cc (rw dropped at h)
  | inr stays ↦
      let same : some x ≡ some e = rw stays at h in
      (same, subst (λ y. test y ≡ false) (some_inj x e same) stays)
]

-- An entry stays when it does not have what is dropped.
pub unless_kept :
    (test : Entry → Bool) (o : Option Entry)
    → ((e : Entry) → o ≡ some e → test e ≡ true → ⊥)
    → unless test o ≡ o
unless_kept test none h = refl
unless_kept test (some e) h = elim (Bool-cases (test e)) [
  | inl dropped ↦ absurd (h e refl dropped)
  | inr stays ↦ rw stays
]

-- An entry without one rule, and with another: the rules differ.
pub has_rule_ne :
    (r q : String) (e : Entry) → r ≡ q → has_rule r e ≡ false → has_rule q e ≡ true → ⊥
has_rule_ne r q e same out has = cc (has, ap (λ (s : String). has_rule s e) same)

pub has_tag_ne : (t q : String) (e : Entry) → t ≡ q → has_tag t e ≡ false → has_tag q e ≡ true → ⊥
has_tag_ne t q e same out has = cc (has, ap (λ (s : String). has_tag s e) same)

-- An entry just written is under its own rule alone.
pub has_rule-entry_of :
    (now : ℕ) (life : Option ℕ) (w : Write) (r : String)
    → has_rule r (entry_of now life w) ≡ true
    → w.rule ≡ r
has_rule-entry_of now life w r h = ground (arith, eq_iff w.rule r)
