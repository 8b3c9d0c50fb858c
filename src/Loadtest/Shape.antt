-- ===== src/Loadtest/Shape.antt =====
-- loadtest/shape.py: `ExperimentShape.tick`. Times are in whole seconds; `MEASURED_DURATION_S` comes
-- from the environment and is a parameter.
use hse_graduate_qualificati.Base.{
  ℕ, zero, suc, ◌+◌, ◌≤◌, ◌≡◌, refl, ap, ◌∙◌, Option, none, some, ltb, if◌then◌else◌, arith, List,
  [], ◌∷◌, ◌++◌, map, append_assoc,
}

abbrev pub warmup_duration_s : ℕ
warmup_duration_s = 30

abbrev pub total_duration_s : ℕ → ℕ
total_duration_s measured_duration_s = warmup_duration_s + measured_duration_s

-- The user count and the spawn rate.
unfoldable pub tick : ℕ → ℕ → Option (ℕ × ℕ)
tick measured_duration_s run_time =
    if ltb run_time warmup_duration_s
    then some (50, 50)
    else if ltb run_time (total_duration_s measured_duration_s)
    then some (200, 50)
    else none

-- `n` times, a second apart, from the time `start`.
abbrev pub seconds : ℕ → ℕ → List ℕ
seconds start zero = []
seconds start (suc n) = start ∷ seconds (start + 1) n

abbrev pub replicate {ℓ} : {A : Type ℓ} → ℕ → A → List A
replicate zero x = []
replicate (suc n) x = x ∷ replicate n x

seconds-add :
    (start n k middle : ℕ)
    → start + n ≡ middle
    → seconds start (n + k) ≡ seconds start n ++ seconds middle k
seconds-add start zero k middle at =
    let none_before : 0 + k ≡ k = omega arith in
    let e : start ≡ middle = omega arith in rw (none_before, e) refl
seconds-add start (suc n) k middle at =
    let longer : suc n + k ≡ suc (n + k) = omega arith in
    ap (seconds start) longer
    ∙ ap (λ xs. start ∷ xs) (seconds-add (start + 1) n k middle (omega arith))

module _ {A B : Type 0} where
  map-append : (f : A → B) (xs ys : List A) → map f (xs ++ ys) ≡ map f xs ++ map f ys
  map-append f [] ys = refl
  map-append f (x ∷ xs) ys = ap (λ rest. f x ∷ rest) (map-append f xs ys)

map-seconds :
    {B : Type 0} (f : ℕ → B) (b : B) (start n : ℕ)
    → ((t : ℕ) → start ≤ t → t + 1 ≤ start + n → f t ≡ b)
    → map f (seconds start n) ≡ replicate n b
map-seconds f b start zero same = refl
map-seconds f b start (suc n) same = rw (same start (omega arith) (omega arith)) (
    ap (λ rest. b ∷ rest)
      (map-seconds f b (start + 1) n (λ t from to. same t (omega arith) (omega arith))))

-- Asked every second from the start, for a measured duration and `k` seconds more, `tick` asks for 50
-- users in the first 30 seconds, then for 200 users through the measured duration, both at the spawn
-- rate 50, and stops from then on.
pub tick-seconds :
    (measured k : ℕ)
    → map (tick measured) (seconds 0 (30 + measured + k))
      ≡ replicate 30 (some (50, 50)) ++ replicate measured (some (200, 50)) ++ replicate k none
unfolding tick
tick-seconds measured k =
    let warm : map (tick measured) (seconds 0 30) ≡ replicate 30 (some (50, 50)) =
      map-seconds (tick measured) (some (50, 50)) 0 30 (λ t from to. ground arith) in
    let hot : map (tick measured) (seconds 30 measured) ≡ replicate measured (some (200, 50)) =
      map-seconds (tick measured) (some (200, 50)) 30 measured (λ t from to. ground arith) in
    let over : map (tick measured) (seconds (30 + measured) k) ≡ replicate k none =
      map-seconds (tick measured) none (30 + measured) k (λ t from to. ground arith) in
    ap (map (tick measured)) (seconds-add 0 (30 + measured) k (30 + measured) (omega arith))
    ∙ map-append (tick measured) (seconds 0 (30 + measured)) (seconds (30 + measured) k)
    ∙ ap (λ xs. map (tick measured) xs ++ map (tick measured) (seconds (30 + measured) k))
        (seconds-add 0 30 measured 30 (omega arith))
    ∙ ap (λ xs. xs ++ map (tick measured) (seconds (30 + measured) k))
        (map-append (tick measured) (seconds 0 30) (seconds 30 measured))
    ∙ ap
        (λ xs.
          (xs ++ map (tick measured) (seconds 30 measured))
          ++ map (tick measured) (seconds (30 + measured) k))
        warm
    ∙ ap
        (λ xs.
          (replicate 30 (some (50, 50)) ++ xs) ++ map (tick measured) (seconds (30 + measured) k))
        hot
    ∙ ap (λ xs. (replicate 30 (some (50, 50)) ++ replicate measured (some (200, 50))) ++ xs) over
    ∙ append_assoc (replicate 30 (some (50, 50))) (replicate measured (some (200, 50)))
        (replicate k none)
