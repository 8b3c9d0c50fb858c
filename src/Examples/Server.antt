-- ===== src/Examples/Server.antt =====
-- A Redis server as two functions from names, to strings and to sets: it has the laws of
-- Cache/Redis/Server.antt. Its `unpack` pushes two values at most.
use hse_graduate_qualificati.Base.{
  ℕ, ◌+◌, String, ◌≡◌, refl, Bool, true, false, Option, none, some, List, [], ◌∷◌, ◌==◌, ◌||◌,
  eq_refl, if◌then◌else◌, differs_of_ne, contains, length, Bool-cases, inl, inr,
}
use hse_graduate_qualificati.Cache.Backend.{Bytes}
use hse_graduate_qualificati.Cache.Backend.Ideal.{deadline_after}
use hse_graduate_qualificati.Cache.Redis.Server.{RedisServer, RedisLaws}
use hse_graduate_qualificati.Examples.Ttl.{alive, alive-popped, alive-stored}

pub record FunServer : Type 0 where
  pub strings : String → Option (Bytes × Option ℕ)
  pub sets : String → List String

pub count_present : List String → FunServer → ℕ
count_present [] r = 0
count_present (n ∷ ns) r = length (r.sets n) + count_present ns r

abbrev pub server : RedisServer
server = record {
  State = FunServer;
  get = λ now k r. alive now (r.strings k);
  set = λ now k v ex r. record r {
    strings = λ j. if k == j then some (v, deadline_after now ex) else r.strings j;
  };
  sadd =
      λ name member r. record r { sets = λ n. if name == n then member ∷ r.sets n else r.sets n };
  smembers = λ name r. r.sets name;
  del = λ names r. record {
    strings = λ k. if contains k names then none else r.strings k;
    sets = λ n. if contains n names then [] else r.sets n;
  };
  del_count = count_present;
  flushdb = λ r. record { strings = λ k. none; sets = λ n. [] };
  breaks = λ now r. none;
  unpack_limit = 2;
}

abbrev pub no_data : FunServer
no_data = record { strings = λ k. none; sets = λ n. [] }

member-sadd_lem :
    (name n member x : String) (l : List String)
    → contains x (if name == n then member ∷ l else l)
      ≡ (if name == n then member == x || contains x l else contains x l)
unfolding contains
member-sadd_lem name n member x l = elim (Bool-cases (name == n)) [
  | inl same ↦ rw (same, contains)
  | inr differs ↦ rw differs
]

member-del_lem :
    (b : Bool) (x : String) (l : List String)
    → contains x (if b then [] else l) ≡ (if b then false else contains x l)
unfolding contains
member-del_lem true x l = refl
member-del_lem false x l = refl

pub server_laws : RedisLaws server
unfolding contains
server_laws = record {
  get-set_self = λ t t' k v ex r {w} h. alive-stored ex t t' v w (rw (eq_refl k) at h);
  get-set_ne = λ t t' k j v ex r {w} differs h. rw (differs_of_ne k j differs) at h;
  get-sadd = λ t name member k r {w} differs h. h;
  get-del_hit = λ t names k r h. rw h;
  get-del = λ t names k r {w} h. alive-popped (contains k names) (r.strings k) t w h;
  get-del_other = λ t names k r h. rw h;
  get-flushdb = λ t k r. refl;
  member-set = λ t k v ex name member r differs. refl;
  member-sadd = λ name n member x r. member-sadd_lem name n member x (r.sets n);
  member-del = λ names n x r. member-del_lem (contains n names) x (r.sets n);
  member-flushdb = λ n x r. refl;
}
