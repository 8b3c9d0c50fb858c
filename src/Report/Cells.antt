-- ===== src/Report/Cells.antt =====
-- scripts/build_report.py: which cells are loaded, and what `main` makes of them.
use mathlib.Core.Path.{subst}
use hse_graduate_qualificati.Base.{
  ℕ, String, true, All, contains, Bool-cases, inl, inr, ◌≡◌, refl, ap, Option, none, some, List, [],
  ◌∷◌, length,
}
use hse_graduate_qualificati.Base.Exec.{Result, ok, raise, ok_inj, ◌>>=◌, >>=-eq-ok}
use hse_graduate_qualificati.Base.Outcome.{
  Outcome, returned, expected, other, catch, ◌>>=ₒ◌, >>=ₒ-eq-returned,
}
use hse_graduate_qualificati.Report.{
  Python, CellRecord, required_top_keys, missing_keys, read_cell, load_cell, load_paths, load_cells,
  build_summary,
}
use hse_graduate_qualificati.Report.Drawing.{Written, main_on, main}

>>=ₒ-returned {ℓ κ ι} :
    {E : Type ℓ} {A : Type κ} {B : Type ι} (first : Outcome E A) (next : A → Outcome E B) (a : A)
    (b : B)
    → first ≡ returned a
    → next a ≡ returned b
    → (first >>=ₒ next) ≡ returned b
>>=ₒ-returned (returned x) next a b h later = let e : x ≡ a = cc h in rw e later
>>=ₒ-returned (expected e) next a b h later = cc h
>>=ₒ-returned (other e) next a b h later = cc h

>>=-ok {ℓ κ} :
    {V : Type ℓ} {W : Type κ} (first : Result V) (next : V → Result W) {w : Result W} (v : V)
    → first ≡ ok v
    → next v ≡ w
    → (first >>= next) ≡ w
>>=-ok (ok x) next v h later = let e : x ≡ v = ok_inj x v h in rw e later
>>=-ok (raise e) next v h later = cc h

missing_keys_lem :
    (present keys : List String)
    → missing_keys present keys ≡ []
    → All (λ k. contains k present ≡ true) keys
unfolding missing_keys
missing_keys_lem present [] h = tt
missing_keys_lem present (k ∷ ks) h = elim (Bool-cases (contains k present)) [
  | inl there ↦ (there, missing_keys_lem present ks (rw there at h))
  | inr absent ↦ cc (rw absent at h)
]

missing_keys_none :
    (present keys : List String)
    → All (λ k. contains k present ≡ true) keys
    → missing_keys present keys ≡ []
unfolding missing_keys
missing_keys_none present [] all = refl
missing_keys_none present (k ∷ ks) (there, all) = rw there (missing_keys_none present ks all)

module _ {J F : Type 0} (py : Python J F) where
  -- The cell holds what the report's object has under the keys, and the path.
  pub record IsCell (path : String) (j : J) (c : CellRecord F) : Type 0 where
    pub strategy : (v : J) × (py.subscript "strategy" j ≡ returned v) × (c.strategy ≡ py.str v)
    pub backend : (v : J) × (py.subscript "backend" j ≡ returned v) × (c.backend ≡ py.str v)
    pub scenario : (v : J) × (py.subscript "scenario" j ≡ returned v) × (c.scenario ≡ py.str v)
    pub duration : (py.subscript "duration_s" j >>=ₒ py.int) ≡ returned c.duration_s
    pub p50 :
        (py.subscript "latency" j >>=ₒ py.subscript "p50" >>=ₒ py.float) ≡ returned c.latency_p50_ms
    pub p95 :
        (py.subscript "latency" j >>=ₒ py.subscript "p95" >>=ₒ py.float) ≡ returned c.latency_p95_ms
    pub p99 :
        (py.subscript "latency" j >>=ₒ py.subscript "p99" >>=ₒ py.float) ≡ returned c.latency_p99_ms
    pub hit_ratio :
        (py.subscript "cache" j >>=ₒ py.subscript "hit_ratio" >>=ₒ py.float) ≡ returned c.hit_ratio
    pub invalidations :
        (py.subscript "cache" j >>=ₒ py.subscript "invalidations" >>=ₒ py.int)
        ≡ returned c.invalidations
    pub rps_avg :
        (py.subscript "throughput" j >>=ₒ py.subscript "rps_avg" >>=ₒ py.float) ≡ returned c.rps_avg
    pub framework_backend :
        (v : J) × (py.subscript "framework_backend" j ≡ returned v)
        × (c.framework_backend ≡ py.str v)
    pub report_path : c.report_path ≡ path

  -- The path's file holds a report of the cell: an object with all required keys.
  abbrev pub IsReport : String → CellRecord F → Type 0
  IsReport path c =
      (j : J) × (present : List String) × (py.load_json path ≡ returned j)
      × (py.keys j ≡ ok present)
      × All (λ k. contains k present ≡ true) required_top_keys
      × IsCell path j c

  -- The cells are those of the paths that hold a report, in their order; every other path is skipped.
  pub data Loads : List String → List (CellRecord F) → Type 0 where
    done : Loads [] []
    keep :
        (p : String) (c : CellRecord F) (ps : List String) (cs : List (CellRecord F))
        → IsReport p c
        → Loads ps cs
        → Loads (p ∷ ps) (c ∷ cs)
    skip :
        (p : String) (ps : List String) (cs : List (CellRecord F))
        → ((c : CellRecord F) → IsReport p c → ⊥)
        → Loads ps cs
        → Loads (p ∷ ps) cs

  read_cell-IsCell :
      (path : String) (j : J) (c : CellRecord F)
      → read_cell py path j ≡ returned c
      → IsCell path j c
  unfolding read_cell
  read_cell-IsCell path j c h0 =
      let (v1, e1, h1) = >>=ₒ-eq-returned (py.subscript "strategy" j) _ c h0 in
      let (v2, e2, h2) = >>=ₒ-eq-returned (py.subscript "backend" j) _ c h1 in
      let (v3, e3, h3) = >>=ₒ-eq-returned (py.subscript "scenario" j) _ c h2 in
      let (v4, e4, h4) = >>=ₒ-eq-returned (py.subscript "duration_s" j >>=ₒ py.int) _ c h3 in
      let (v5, e5, h5) =
        >>=ₒ-eq-returned (py.subscript "latency" j >>=ₒ py.subscript "p50" >>=ₒ py.float) _ c h4 in
      let (v6, e6, h6) =
        >>=ₒ-eq-returned (py.subscript "latency" j >>=ₒ py.subscript "p95" >>=ₒ py.float) _ c h5 in
      let (v7, e7, h7) =
        >>=ₒ-eq-returned (py.subscript "latency" j >>=ₒ py.subscript "p99" >>=ₒ py.float) _ c h6 in
      let (v8, e8, h8) =
        >>=ₒ-eq-returned (py.subscript "cache" j >>=ₒ py.subscript "hit_ratio" >>=ₒ py.float) _ c
          h7 in
      let (v9, e9, h9) =
        >>=ₒ-eq-returned (py.subscript "cache" j >>=ₒ py.subscript "invalidations" >>=ₒ py.int) _ c
          h8 in
      let (v10, e10, h10) =
        >>=ₒ-eq-returned (py.subscript "throughput" j >>=ₒ py.subscript "rps_avg" >>=ₒ py.float) _ c
          h9 in
      let (v11, e11, h11) = >>=ₒ-eq-returned (py.subscript "framework_backend" j) _ c h10 in
      let cell_of : Outcome String (CellRecord F) → CellRecord F =
        λ o. elim o [ returned x ↦ x | expected e ↦ c | other e ↦ c ] in
      subst (IsCell path j) (ap cell_of h11) (record {
        strategy = (v1, e1, refl);
        backend = (v2, e2, refl);
        scenario = (v3, e3, refl);
        duration = e4;
        p50 = e5;
        p95 = e6;
        p99 = e7;
        hit_ratio = e8;
        invalidations = e9;
        rps_avg = e10;
        framework_backend = (v11, e11, refl);
        report_path = refl;
      })

  IsCell-read_cell :
      (path : String) (j : J) (c : CellRecord F)
      → IsCell path j c
      → read_cell py path j ≡ returned c
  unfolding read_cell
  IsCell-read_cell path j c is =
      >>=ₒ-returned (py.subscript "strategy" j) _ is.strategy.0 c is.strategy.1 (
        >>=ₒ-returned (py.subscript "backend" j) _ is.backend.0 c is.backend.1 (
          >>=ₒ-returned (py.subscript "scenario" j) _ is.scenario.0 c is.scenario.1 (
            >>=ₒ-returned _ _ c.duration_s c is.duration (
              >>=ₒ-returned _ _ c.latency_p50_ms c is.p50 (
                >>=ₒ-returned _ _ c.latency_p95_ms c is.p95 (
                  >>=ₒ-returned _ _ c.latency_p99_ms c is.p99 (
                    >>=ₒ-returned _ _ c.hit_ratio c is.hit_ratio (
                      >>=ₒ-returned _ _ c.invalidations c is.invalidations (
                        >>=ₒ-returned _ _ c.rps_avg c is.rps_avg (
                          >>=ₒ-returned (py.subscript "framework_backend" j) _
                            is.framework_backend.0 c is.framework_backend.1
                            (rw
                              (
                                ← is.strategy.2,
                                ← is.backend.2,
                                ← is.scenario.2,
                                ← is.framework_backend.2,
                                ← is.report_path,
                              )
                              refl)))))))))))

  catch-some {ℓ} :
      {A : Type ℓ} (o : Outcome String A) (next : A → Result (Option (CellRecord F)))
      (c : CellRecord F)
      → catch o none next ≡ ok (some c)
      → (a : A) × (o ≡ returned a) × (next a ≡ ok (some c))
  unfolding catch
  catch-some (returned a) next c h = (a, refl, h)
  catch-some (expected e) next c h = cc h
  catch-some (other e) next c h = cc h

  when_complete :
      (missing : List String) (path : String) (j : J) (c : CellRecord F)
      → elim missing [
        | [] ↦ catch (read_cell py path j) none (λ cell. ok (some cell))
        | k ∷ ks ↦ ok none
      ]
        ≡ ok (some c)
      → (missing ≡ []) × IsCell path j c
  when_complete [] path j c h =
      let (cell, made, same) = catch-some (read_cell py path j) _ c h in
      let e : some cell ≡ some c = ok_inj (some cell) (some c) same in
      let it : cell ≡ c = cc e in
      (refl, subst (IsCell path j) it (read_cell-IsCell path j cell made))
  when_complete (k ∷ ks) path j c h = cc h

  complete_loads :
      (missing : List String) (path : String) (j : J) (c : CellRecord F)
      → missing ≡ []
      → read_cell py path j ≡ returned c
      → elim missing [
        | [] ↦ catch (read_cell py path j) none (λ cell. ok (some cell))
        | k ∷ ks ↦ ok none
      ]
        ≡ ok (some c)
  unfolding catch
  complete_loads [] path j c h reads = rw reads refl
  complete_loads (k ∷ ks) path j c h reads = cc h

  load_cell-IsReport :
      (path : String) (c : CellRecord F) → load_cell py path ≡ ok (some c) → IsReport path c
  unfolding load_cell
  load_cell-IsReport path c h =
      let (j, opened, h1) = catch-some (py.load_json path) _ c h in
      let (present, keys, h2) = >>=-eq-ok (py.keys j) _ h1 in
      let (complete, is) = when_complete (missing_keys present required_top_keys) path j c h2 in
      (j, present, opened, keys, missing_keys_lem present required_top_keys complete, is)

  IsReport-load_cell :
      (path : String) (c : CellRecord F) → IsReport path c → load_cell py path ≡ ok (some c)
  unfolding load_cell catch
  IsReport-load_cell path c (j, present, opened, keys, all, is) = rw opened (
      >>=-ok (py.keys j) _ present keys (
        complete_loads (missing_keys present required_top_keys) path j c
          (missing_keys_none present required_top_keys all) (IsCell-read_cell path j c is)))

  add_loaded :
      (p : String) (paths : List String) (cell : Option (CellRecord F))
      (cells : List (CellRecord F))
      → load_cell py p ≡ ok cell
      → Loads paths cells
      → Loads (p ∷ paths) (elim cell [ none ↦ cells | some c ↦ c ∷ cells ])
  add_loaded p paths none cells at rest =
      skip p paths cells (λ c is. cc (IsReport-load_cell p c is, at)) rest
  add_loaded p paths (some c) cells at rest = keep p c paths cells (load_cell-IsReport p c at) rest

  -- When the list of paths is loaded, the cells are those of the paths that hold a report, in their
  -- order, each with what its report has under the keys and with its path; the paths that are left
  -- out hold no report of any cell.
  pub load_paths-Loads :
      (paths : List String) (cells : List (CellRecord F))
      → load_paths py paths ≡ ok cells
      → Loads paths cells
  unfolding load_paths
  load_paths-Loads [] cells h = let e = ok_inj [] cells h in rw (← e) done
  load_paths-Loads (p ∷ paths) cells h =
      let (cell, loaded, h1) = >>=-eq-ok (load_cell py p) _ h in
      let (rest, others, end) = >>=-eq-ok (load_paths py paths) _ h1 in
      let e = ok_inj _ cells end in
      rw (← e) (add_loaded p paths cell rest loaded (load_paths-Loads paths rest others))

  -- What a run of `main` on these cells comes to: the code 1 and nothing written when there are
  -- none, else the code 0 and a summary of all of them.
  abbrev pub Comes : List (CellRecord F) → ℕ × Option (Written py) → Type 0
  Comes [] (exit_code, written) = (exit_code ≡ 1) × (written ≡ none)
  Comes (c ∷ cells) (exit_code, written) =
      (exit_code ≡ 0)
      × (w : Written py) × (written ≡ some w)
      × (w.summary.cells ≡ c ∷ cells)
      × (w.summary.cell_count ≡ length (c ∷ cells))

  -- When `main` returns, the list's cells have been loaded: the code is 1, and nothing is written, when
  -- there is no cell; the code is 0, and a summary that holds and counts all cells is written, when
  -- there is one.
  pub main-Comes :
      (matrix_list matrix_ts : String) (out : ℕ × Option (Written py))
      → main py matrix_list matrix_ts ≡ ok out
      → (cells : List (CellRecord F)) × (load_cells py matrix_list ≡ ok cells) × Comes cells out
  unfolding main build_summary
  main-Comes matrix_list matrix_ts out h =
      let (cells, loaded, h1) = >>=-eq-ok (load_cells py matrix_list) _ h in
      (
        cells,
        loaded,
        elim cells as (λ cs. main_on py cs matrix_ts ≡ ok out → Comes cs out) [
          | [] ↦ λ e. subst (Comes []) (ok_inj _ out e) (refl, refl)
          | c ∷ cs ↦ λ e. subst (Comes (c ∷ cs)) (ok_inj _ out e) (refl, _, refl, refl, refl)
        ]
            h1,
      )
