-- ===== src/Base/Items.antt =====
-- Subscripts of a dict, which raise on a missing key.
use Prim.Native.String.{String}
use mathlib.Core.Path.{◌≡◌, refl, sym, ◌∙◌}
use mathlib.Core.Bool.{true}
use mathlib.Core.List.{List, [], ◌∷◌, ◌++◌}
use mathlib.Core.Option.{none, some}
use hse_graduate_qualificati.Base.Lists.{length}
use hse_graduate_qualificati.Base.Dict.{Dict, lookup, has_key, lookup_of_has_key}
use hse_graduate_qualificati.Base.Exec.{
  Result, ok, raise, key_error, traverse, ◌>>=◌, >>=-eq-ok, ok_inj,
}

-- `d[key]`
unfoldable pub get_item {ℓ} : {V : Type ℓ} → String → Dict V → Result V
get_item key d = elim (lookup key d) [ none ↦ raise (key_error key) | some v ↦ ok v ]

pub get_item-ok {ℓ} :
    {V : Type ℓ} (key : String) (d : Dict V)
    → has_key key d ≡ true
    → (v : V) × (get_item key d ≡ ok v) × (lookup key d ≡ some v)
unfolding get_item
get_item-ok key d there =
    let (v, found) = lookup_of_has_key key d there in (v, rw (found, get_item), found)

-- `[d[key] for key in keys]`
unfoldable pub get_items {ℓ} : {V : Type ℓ} → List String → Dict V → Result (List V)
unfolding get_item traverse
get_items keys d = traverse (λ key. get_item key d) keys

module _ {ℓ} {V : Type ℓ} where
  pub get_items-nil : (d : Dict V) → get_items [] d ≡ ok []
  unfolding get_items
  get_items-nil d = refl

  pub get_items-cons :
      (k : String) (ks : List String) (d : Dict V)
      → get_items (k ∷ ks) d ≡ (get_item k d >>= λ v. get_items ks d >>= λ vs. ok (v ∷ vs))
  unfolding get_items
  get_items-cons k ks d = refl

  pub get_items-length :
      (ks : List String) (d : Dict V) (vs : List V) → get_items ks d ≡ ok vs → length vs ≡ length ks
  get_items-length [] d vs h =
      let e : [] ≡ vs = ok_inj [] vs (sym (get_items-nil d) ∙ h) in rw (← e)
  get_items-length (k ∷ ks) d vs h =
      let (v, _, later) = >>=-eq-ok (get_item k d) _ (sym (get_items-cons k ks d) ∙ h) in
      let (ws, rest, done) = >>=-eq-ok (get_items ks d) _ later in
      let e : v ∷ ws ≡ vs = ok_inj (v ∷ ws) vs done in
      let ih = get_items-length ks d ws rest in rw (← e, ih)

  pub get_items-append :
      (ks js : List String) (d : Dict V) (vs ws : List V)
      → get_items ks d ≡ ok vs
      → get_items js d ≡ ok ws
      → get_items (ks ++ js) d ≡ ok (vs ++ ws)
  get_items-append [] js d vs ws h h' =
      let e : [] ≡ vs = ok_inj [] vs (sym (get_items-nil d) ∙ h) in rw (← e, h')
  get_items-append (k ∷ ks) js d vs ws h h' =
      let (v, first, later) = >>=-eq-ok (get_item k d) _ (sym (get_items-cons k ks d) ∙ h) in
      let (us, rest, done) = >>=-eq-ok (get_items ks d) _ later in
      let e : v ∷ us ≡ vs = ok_inj (v ∷ us) vs done in
      rw (get_items-cons k (ks ++ js) d, first, get_items-append ks js d us ws rest h', ← e)
