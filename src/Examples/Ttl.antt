-- ===== src/Examples/Ttl.antt =====
-- A `TTLCache` that never has to evict, as a function from keys: it has the laws of Cache/Ttl.antt.
use hse_graduate_qualificati.Base.{
  ℕ, String, ◌≡◌, refl, Bool, Option, none, some, ◌==◌, eq_refl, arith, ltb, if◌then◌else◌,
  differs_of_ne,
}
use hse_graduate_qualificati.Cache.Backend.{Bytes}
use hse_graduate_qualificati.Cache.Backend.Ideal.{InTime, deadline_after}
use hse_graduate_qualificati.Cache.Ttl.{TtlCaches, TtlLaws}

pub record FunCache : Type 0 where
  pub size : ℕ
  pub life : Option ℕ
  pub items : String → Option (Bytes × Option ℕ)

abbrev pub alive : ℕ → Option (Bytes × Option ℕ) → Option Bytes
alive now none = none
alive now (some (v, none)) = some v
alive now (some (v, some d)) = if ltb now d then some v else none

abbrev pub caches : TtlCaches
caches = record {
  Cache = FunCache;
  new = λ size life. record { size = size; life = life; items = λ k. none };
  get = λ now k c. (alive now (c.items k), c);
  set = λ now k v c. record c {
    items = λ j. if k == j then some (v, deadline_after now c.life) else c.items j;
  };
  pop = λ now k c. record c { items = λ j. if k == j then none else c.items j };
  clear = λ c. record c { items = λ j. none };
  maxsize = λ c. c.size;
  ttl = λ c. c.life;
}

pub alive-popped :
    (b : Bool) (o : Option (Bytes × Option ℕ)) (t : ℕ) (w : Bytes)
    → alive t (if b then none else o) ≡ some w
    → alive t o ≡ some w
alive-popped b o t w h = ground arith

pub alive-stored :
    (life : Option ℕ) (t t' : ℕ) (v w : Bytes)
    → alive t' (some (v, deadline_after t life)) ≡ some w
    → (v ≡ w) × InTime (deadline_after t life) t'
alive-stored none t t' v w h = (cc h, tt)
alive-stored (some d) t t' v w h = ground arith

alive-InTime :
    (life : Option ℕ) (t t' : ℕ) (v : Bytes)
    → InTime (deadline_after t life) t'
    → alive t' (some (v, deadline_after t life)) ≡ some v
alive-InTime none t t' v h = refl
alive-InTime (some d) t t' v h = ground arith

pub laws : TtlLaws caches
laws = record {
  peek-new = λ size life t k. refl;
  peek-clear = λ t k c. refl;
  peek-get = λ t t' k j c h. h;
  peek-pop_self = λ t t' k c. rw (eq_refl k);
  peek-pop = λ t t' k j c {w} h. alive-popped (k == j) (c.items j) t' w h;
  peek-pop_ne = λ t t' k j c differs le. rw (differs_of_ne k j differs);
  peek-set_self = λ t t' k v c {w} h. alive-stored c.life t t' v w (rw (eq_refl k) at h);
  peek-set_ne = λ t t' k j v c {w} differs h. rw (differs_of_ne k j differs) at h;
  peek-set = λ t t' k v c room le h. rw (eq_refl k) (alive-InTime c.life t t' v h);
  config-new = λ size life. (refl, refl);
  config-get = λ t k c. (refl, refl);
  config-set = λ t k v c. (refl, refl);
  config-pop = λ t k c. (refl, refl);
  config-clear = λ c. (refl, refl);
}
