-- ===== src/Report/Drawing.antt =====
-- scripts/build_report.py: the values of the charts' bars, and `main`.
use Prim.Native.String.{◌++◌}
use hse_graduate_qualificati.Base.{ℕ, String, Option, none, some, List, [], ◌∷◌, map}
use hse_graduate_qualificati.Base.Exec.{Result, ok, ◌>>=◌}
use hse_graduate_qualificati.Report.{
  Python, CellRecord, load_cells, Summary, build_summary, CellIndex, get_cell, index_cells_by_label,
  scenarios, cell_labels_full, strategies, backends,
}

module _ {J F : Type 0} (py : Python J F) where
  -- the inner loop of `_draw_grouped_bar`: `float(cell[metric])` or 0.0, transformed
  unfoldable pub bar_value : (CellRecord F → F) → Option (F → F) → CellIndex F → String → String → F
  unfolding get_cell
  bar_value metric y_transform indexed label scenario =
      let v : F = elim (get_cell label scenario indexed) [
        | none ↦ py.zero
        | some cell ↦ metric cell
      ] in
      elim y_transform [ none ↦ v | some f ↦ f v ]

  -- the bars of `_draw_grouped_bar`: for each label its values, one a scenario
  unfoldable pub draw_grouped_bar :
      List (CellRecord F)
      → (CellRecord F → F)
      → Option (F → F)
      → List String
      → List (String × List F)
  unfolding bar_value index_cells_by_label
  draw_grouped_bar cells metric y_transform legend_labels =
      let indexed = index_cells_by_label cells in
      map (λ label. (label, map (bar_value metric y_transform indexed label) scenarios))
        legend_labels

  abbrev pub chart_latency_p95 : List (CellRecord F) → List (String × List F)
  chart_latency_p95 cells = draw_grouped_bar cells CellRecord.latency_p95_ms none cell_labels_full

  abbrev pub chart_hit_ratio : List (CellRecord F) → List (String × List F)
  chart_hit_ratio cells =
      draw_grouped_bar cells CellRecord.hit_ratio (some py.percent) cell_labels_full

  abbrev pub chart_invalidations : List (CellRecord F) → List (String × List F)
  chart_invalidations cells =
      draw_grouped_bar cells (λ (c : CellRecord F). py.of_int c.invalidations) none cell_labels_full

  -- the inner loop of `build_chart_redis_vs_memory`; a cell is a dict that is not empty
  unfoldable pub p95_or_zero : CellIndex F → String → String → F
  unfolding get_cell
  p95_or_zero indexed label scenario = elim (get_cell label scenario indexed) [
    | none ↦ py.zero
    | some cell ↦ cell.latency_p95_ms
  ]

  -- For each scenario, the bars of each backend: one value a strategy.
  unfoldable pub chart_redis_vs_memory :
      List (CellRecord F) → List (String × List (String × List F))
  unfolding p95_or_zero index_cells_by_label
  chart_redis_vs_memory cells =
      let indexed = index_cells_by_label cells in
      map
        (λ scenario. (
          scenario,
          map
              (λ backend. (
                backend,
                map (λ strategy. p95_or_zero indexed (strategy ++ ("-" ++ backend)) scenario)
                    strategies,
              ))
              backends,
        ))
        scenarios

  -- What a run of `main` writes.
  pub record Written : Type 0 where
    pub summary : Summary F
    pub latency_p95 : List (String × List F)
    pub hit_ratio : List (String × List F)
    pub invalidations : List (String × List F)
    pub redis_vs_memory : List (String × List (String × List F))

  -- the rest of `main`, with the cells
  unfoldable pub main_on : List (CellRecord F) → String → Result (ℕ × Option Written)
  unfolding build_summary draw_grouped_bar chart_redis_vs_memory
  main_on [] matrix_ts = ok (1, none)
  main_on (c ∷ cells) matrix_ts = ok (
    0,
    some (record {
      summary = build_summary (c ∷ cells) matrix_ts;
      latency_p95 = chart_latency_p95 (c ∷ cells);
      hit_ratio = chart_hit_ratio (c ∷ cells);
      invalidations = chart_invalidations (c ∷ cells);
      redis_vs_memory = chart_redis_vs_memory (c ∷ cells);
    }),
  )

  -- `main`, from the parsed arguments on: the exit code and what is written
  unfoldable pub main : String → String → Result (ℕ × Option Written)
  unfolding load_cells main_on
  main matrix_list matrix_ts = load_cells py matrix_list >>= λ cells. main_on cells matrix_ts
