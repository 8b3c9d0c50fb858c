-- ===== src/Cache/Memory/Index.antt =====
-- The forward indexes of memory_backend.py: which keys an index lists under a name.
use hse_graduate_qualificati.Base.{
  String, ◌≡◌, refl, Bool, true, false, ◌||◌, List, [], ◌∷◌, ◌==◌, eq_refl, arith, contains,
  contains-set_add, ap, difference_update, contains-difference_update, if◌then◌else◌, text_cases,
  inl, inr,
}
use hse_graduate_qualificati.Base.Dict.{insert, lookup, lookup-insert, lookup-remove, remove}
use hse_graduate_qualificati.Cache.Memory.{
  Index, index_keys, index_add, index_discard, index_tags, keep_nonempty,
}

-- The index lists the key under the name.
abbrev pub lists : Index → String → String → Bool
lists index name key = contains key (index_keys name index)

index_keys-cons :
    (index : Index) (name n : String) (keys : List String)
    → index_keys n ((name, keys) ∷ index) ≡ (if name == n then keys else index_keys n index)
unfolding index_keys lookup
index_keys-cons index name n keys = ground arith

index_keys-insert :
    (index : Index) (name n : String) (keys : List String)
    → index_keys n (insert name keys index) ≡ (if name == n then keys else index_keys n index)
unfolding index_keys
index_keys-insert index name n keys = rw (lookup-insert, index_keys) (ground arith)

-- Adding a key to one name's set adds it there and nowhere else.
pub lists-add :
    (index : Index) (name n key k : String)
    → lists (index_add name key index) n k
      ≡ (if name == n then key == k || lists index n k else lists index n k)
unfolding index_add
lists-add index name n key k = elim (text_cases name n) [
  | inl same ↦ rw (same, index_keys-insert, eq_refl n) (contains-set_add k key (index_keys n index))
  | inr differs ↦ rw (index_keys-insert, differs)
]

pub lists-remove :
    (index : Index) (name n k : String)
    → lists (remove name index) n k ≡ (if name == n then false else lists index n k)
unfolding index_keys contains
lists-remove index name n k = rw (lookup-remove, index_keys) (ground arith)

-- Adding keys forgets none.
pub lists-add_mono :
    (index : Index) (name n key k : String)
    → lists index n k ≡ true
    → lists (index_add name key index) n k ≡ true
lists-add_mono index name n key k h = rw lists-add (ground arith)

pub lists-add_self :
    (index : Index) (name key : String) → lists (index_add name key index) name key ≡ true
lists-add_self index name key = rw (lists-add, eq_refl name, eq_refl key)

not-contains-nil : (k : String) (l : List String) → contains k l ≡ true → l ≡ [] → ⊥
unfolding contains
not-contains-nil k l h e = cc (ap (contains k) e)

pub index_tags_mono :
    (tags : List String) (index : Index) (n key k : String)
    → lists index n k ≡ true
    → lists (index_tags tags key index) n k ≡ true
unfolding index_tags
index_tags_mono [] index n key k h = h
index_tags_mono (tag ∷ tags) index n key k h =
    index_tags_mono tags (index_add tag key index) n key k (lists-add_mono index tag n key k h)

-- A write indexes its key under each of its tags.
pub index_tags_lem :
    (tags : List String) (index : Index) (tag key : String)
    → contains tag tags ≡ true
    → lists (index_tags tags key index) tag key ≡ true
unfolding contains index_tags
index_tags_lem [] index tag key h = cc
index_tags_lem (t ∷ tags) index tag key h = elim (text_cases t tag) [
  | inl same ↦
      index_tags_mono tags (index_add t key index) tag key key
        (rw same (lists-add_self index tag key))
  | inr differs ↦ index_tags_lem tags (index_add t key index) tag key (rw differs at h)
]

lists-keep_nonempty :
    (name k : String) (members : List String) (rest : Index)
    → contains k members ≡ true
    → lists (keep_nonempty name members rest) name k ≡ true
unfolding contains keep_nonempty
lists-keep_nonempty name k [] rest h = cc
lists-keep_nonempty name k (m ∷ ms) rest h = rw (index_keys-cons, eq_refl name) h

lists-keep_nonempty_other :
    (name n k : String) (members : List String) (rest : Index)
    → name == n ≡ false
    → lists (keep_nonempty name members rest) n k ≡ lists rest n k
unfolding keep_nonempty
lists-keep_nonempty_other name n k [] rest differs = refl
lists-keep_nonempty_other name n k (m ∷ ms) rest differs = rw (index_keys-cons, differs)

-- A key that is not discarded stays listed where it was.
pub lists-discard :
    (keys : List String) (index : Index) (n k : String)
    → lists index n k ≡ true
    → contains k keys ≡ false
    → lists (index_discard keys index) n k ≡ true
unfolding index_discard
lists-discard keys [] n k h out = h
lists-discard keys ((name, members) ∷ index) n k h out = elim (text_cases name n) [
  | inl same ↦
      let here : contains k members ≡ true = rw (index_keys-cons, same, eq_refl n) at h in
      rw (← same) (
        lists-keep_nonempty name k (difference_update members keys) (index_discard keys index)
          (rw (contains-difference_update, out, here)))
  | inr differs ↦
      rw (lists-keep_nonempty_other, differs)
        (lists-discard keys index n k (rw (index_keys-cons, differs) at h) out)
]
