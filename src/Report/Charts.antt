-- ===== src/Report/Charts.antt =====
-- scripts/build_report.py: which cell a bar shows.
use Prim.Native.String.{◌++◌}
use hse_graduate_qualificati.Base.{
  String, ◌≡◌, refl, ap, ◌∙◌, Bool, Option, none, some, List, [], ◌∷◌, map, if◌then◌else◌,
  Bool-cases, Option-cases, inl, inr, eq_iff, arith,
}
use hse_graduate_qualificati.Report.{
  Python, CellRecord, cell_label, CellIndex, is_key, get_cell, set_cell, index_from,
  index_cells_by_label, scenarios, strategies, backends,
}
use hse_graduate_qualificati.Report.Drawing.{
  bar_value, draw_grouped_bar, p95_or_zero, chart_redis_vs_memory,
}

module _ {F : Type 0} where
  abbrev matches : String → String → CellRecord F → Bool
  matches label scenario c = is_key label scenario (cell_label c, c.scenario)

  -- The last cell of the list with this label and this scenario.
  unfoldable pub last_cell : String → String → List (CellRecord F) → Option (CellRecord F)
  last_cell label scenario [] = none
  last_cell label scenario (c ∷ cells) = elim (last_cell label scenario cells) [
    | some later ↦ some later
    | none ↦ if matches label scenario c then some c else none
  ]

  get_cell-set_cell :
      (l s : String) (label scenario : String) (c : CellRecord F) (indexed : CellIndex F)
      → get_cell label scenario (set_cell l s c indexed)
        ≡ (if is_key label scenario (l, s) then some c else get_cell label scenario indexed)
  unfolding get_cell set_cell
  get_cell-set_cell l s label scenario c [] = refl
  get_cell-set_cell l s label scenario c (((l', s'), c') ∷ indexed) = ground (
    arith,
    eq_iff l' l,
    eq_iff s' s,
    eq_iff l' label,
    eq_iff s' scenario,
    eq_iff l label,
    eq_iff s scenario,
    get_cell-set_cell l s label scenario c indexed,
  )

  get_cell-index_from :
      (label scenario : String) (cells : List (CellRecord F)) (indexed : CellIndex F)
      → get_cell label scenario (index_from indexed cells) ≡ elim (last_cell label scenario cells) [
        | some c ↦ some c
        | none ↦ get_cell label scenario indexed
      ]
  unfolding index_from last_cell
  get_cell-index_from label scenario [] indexed = refl
  get_cell-index_from label scenario (c ∷ cells) indexed =
      let ih =
        get_cell-index_from label scenario cells (set_cell (cell_label c) c.scenario c indexed) in
      let put = get_cell-set_cell (cell_label c) c.scenario label scenario c indexed in
      elim (Option-cases (last_cell label scenario cells)) [
        | inr (later, found) ↦ ih ∙ rw found
        | inl absent ↦ elim (Bool-cases (matches label scenario c)) [
          | inl here ↦ ih ∙ rw (absent, put, here)
          | inr other ↦ ih ∙ rw (absent, put, other)
        ]
      ]

  get_cell-index :
      (label scenario : String) (cells : List (CellRecord F))
      → get_cell label scenario (index_cells_by_label cells) ≡ last_cell label scenario cells
  unfolding index_cells_by_label get_cell
  get_cell-index label scenario cells =
      get_cell-index_from label scenario cells []
      ∙ elim (Option-cases (last_cell label scenario cells)) [
        | inl absent ↦ rw absent
        | inr (c, found) ↦ rw found
      ]

module _ {J F : Type 0} (py : Python J F) where
  -- What the bar of a label shows for a scenario: the metric of the last such cell, or zero,
  -- transformed.
  unfoldable pub shown_value :
      List (CellRecord F) → (CellRecord F → F) → Option (F → F) → String → String → F
  unfolding last_cell
  shown_value cells metric y_transform label scenario =
      let v : F = elim (last_cell label scenario cells) [
        | none ↦ py.zero
        | some cell ↦ metric cell
      ] in
      elim y_transform [ none ↦ v | some f ↦ f v ]

  bar_value-shown :
      (cells : List (CellRecord F)) (metric : CellRecord F → F) (y_transform : Option (F → F))
      (label scenario : String)
      → bar_value py metric y_transform (index_cells_by_label cells) label scenario
        ≡ shown_value cells metric y_transform label scenario
  unfolding bar_value shown_value
  bar_value-shown cells metric none label scenario =
      rw (bar_value, shown_value, get_cell-index label scenario cells)
  bar_value-shown cells metric (some f) label scenario =
      rw (bar_value, shown_value, get_cell-index label scenario cells)

  p95-shown :
      (cells : List (CellRecord F)) (label scenario : String)
      → p95_or_zero py (index_cells_by_label cells) label scenario
        ≡ shown_value cells CellRecord.latency_p95_ms none label scenario
  unfolding p95_or_zero shown_value
  p95-shown cells label scenario =
      rw (p95_or_zero, shown_value, get_cell-index label scenario cells)

map-ext : {A B : Type 0} (f g : A → B) (l : List A) → ((a : A) → f a ≡ g a) → map f l ≡ map g l
map-ext f g [] h = refl
map-ext f g (a ∷ l) h = rw (h a, map-ext f g l h)

module _ {J F : Type 0} (py : Python J F) where
  -- Each of the three grouped charts shows, for every label of its legend in order and for every
  -- scenario in order, the metric of the last cell with that label and scenario, or zero when there
  -- is none; the chart of Redis against memory shows the p95 latency so, under the labels
  -- `strategy-backend`.
  pub charts_show :
      (cells : List (CellRecord F)) (metric : CellRecord F → F) (y_transform : Option (F → F))
      → (labels : List String)
      → (draw_grouped_bar py cells metric y_transform labels
          ≡ map
              (λ label. (label, map (shown_value py cells metric y_transform label) scenarios))
              labels)
        × (chart_redis_vs_memory py cells
            ≡ map
                (λ scenario. (
                  scenario,
                  map
                      (λ backend. (
                        backend,
                        map
                            (λ strategy.
                              shown_value py cells CellRecord.latency_p95_ms none
                                (strategy ++ ("-" ++ backend))
                                scenario)
                            strategies,
                      ))
                      backends,
                ))
                scenarios)
  unfolding draw_grouped_bar chart_redis_vs_memory
  charts_show cells metric y_transform labels = (
    map-ext _ _ labels (λ label.
        ap (λ (vs : List F). (label, vs))
          (map-ext _ _ scenarios
            (λ scenario. bar_value-shown py cells metric y_transform label scenario))),
    map-ext _ _ scenarios (λ scenario.
        ap (λ (bs : List (String × List F)). (scenario, bs))
          (map-ext _ _ backends (λ backend.
            ap (λ (vs : List F). (backend, vs))
              (map-ext _ _ strategies
                (λ strategy. p95-shown py cells (strategy ++ ("-" ++ backend)) scenario))))),
  )
