-- ===== src/Report.antt =====
-- scripts/build_report.py: the cells of a matrix run, the summary, and the index of the cells.
pub mod Drawing
pub mod Charts
pub mod Cells
use Prim.Native.String.{◌++◌}
use hse_graduate_qualificati.Base.{
  ℕ, String, Bool, true, false, not, ◌&&◌, ◌==◌, Option, none, some, List, [], ◌∷◌, map, length,
  contains, if◌then◌else◌,
}
use hse_graduate_qualificati.Base.Exec.{Error, Result, ok, raise, library_error, ◌>>=◌}
use hse_graduate_qualificati.Base.Int.{ℤ}
use hse_graduate_qualificati.Base.Outcome.{Outcome, returned, expected, other, catch, ◌>>=ₒ◌}

-- What Python does with floats and with what `json.load` returns. An outcome is expected when its
-- exception is one of those that the `try` statement around the call names.
pub record Python (J F : Type 0) : Type 0 where
  pub zero : F
  pub of_int : ℤ → F
  pub percent : F → F
  pub str : J → String
  pub int : J → Outcome String ℤ
  pub float : J → Outcome String F
  -- `j[key]`, and `j.keys()`, which stands in no `try` statement
  pub subscript : String → J → Outcome String J
  pub keys : J → Result (List String)
  -- `json.load` of the opened path
  pub load_json : String → Outcome String J
  -- `path.is_file()`, `path.read_text()`, `text.splitlines()` and `line.strip()`
  pub is_file : String → Bool
  pub read_text : String → Result String
  pub splitlines : String → List String
  pub strip : String → String

pub record CellRecord (F : Type 0) : Type 0 where
  pub strategy : String
  pub backend : String
  pub scenario : String
  pub duration_s : ℤ
  pub latency_p50_ms : F
  pub latency_p95_ms : F
  pub latency_p99_ms : F
  pub hit_ratio : F
  pub invalidations : ℤ
  pub rps_avg : F
  pub framework_backend : String
  pub report_path : String

abbrev pub required_top_keys : List String
required_top_keys =
    "strategy" ∷ "backend" ∷ "scenario" ∷ "duration_s" ∷ "latency" ∷ "throughput" ∷ "cache"
    ∷ "framework_backend" ∷ []

-- `keys - present`
unfoldable pub missing_keys : List String → List String → List String
missing_keys present [] = []
missing_keys present (k ∷ ks) =
    let rest = missing_keys present ks in if contains k present then rest else k ∷ rest

module _ {J F : Type 0} (py : Python J F) where
  -- the call of `CellRecord`, field by field
  unfoldable pub read_cell : String → J → Outcome String (CellRecord F)
  read_cell path report = py.subscript "strategy" report >>=ₒ λ strategy.
      py.subscript "backend" report >>=ₒ λ backend. py.subscript "scenario" report >>=ₒ λ scenario.
      (py.subscript "duration_s" report >>=ₒ py.int) >>=ₒ λ duration_s.
      (py.subscript "latency" report >>=ₒ py.subscript "p50" >>=ₒ py.float) >>=ₒ λ p50.
      (py.subscript "latency" report >>=ₒ py.subscript "p95" >>=ₒ py.float) >>=ₒ λ p95.
      (py.subscript "latency" report >>=ₒ py.subscript "p99" >>=ₒ py.float) >>=ₒ λ p99.
      (py.subscript "cache" report >>=ₒ py.subscript "hit_ratio" >>=ₒ py.float) >>=ₒ λ hit_ratio.
      (py.subscript "cache" report >>=ₒ py.subscript "invalidations" >>=ₒ py.int)
      >>=ₒ λ invalidations.
          (py.subscript "throughput" report >>=ₒ py.subscript "rps_avg" >>=ₒ py.float)
          >>=ₒ λ rps_avg. py.subscript "framework_backend" report >>=ₒ λ framework_backend.
              returned (record {
                strategy = py.str strategy;
                backend = py.str backend;
                scenario = py.str scenario;
                duration_s = duration_s;
                latency_p50_ms = p50;
                latency_p95_ms = p95;
                latency_p99_ms = p99;
                hit_ratio = hit_ratio;
                invalidations = invalidations;
                rps_avg = rps_avg;
                framework_backend = py.str framework_backend;
                report_path = path;
              })

  -- `_load_cell`
  unfoldable pub load_cell : String → Result (Option (CellRecord F))
  unfolding catch missing_keys read_cell
  load_cell path = catch (py.load_json path) none (λ report. py.keys report >>= λ present.
      elim (missing_keys present required_top_keys) [
        | [] ↦ catch (read_cell path report) none (λ cell. ok (some cell))
        | k ∷ ks ↦ ok none
      ])

  -- the paths: the lines that are not blank, stripped
  unfoldable pub list_paths : List String → List String
  list_paths [] = []
  list_paths (line ∷ lines) =
      let rest = list_paths lines in if py.strip line == "" then rest else py.strip line ∷ rest

  -- the loop over the paths
  unfoldable pub load_paths : List String → Result (List (CellRecord F))
  unfolding load_cell
  load_paths [] = ok []
  load_paths (p ∷ paths) = do
    cell ← load_cell p
    cells ← load_paths paths
    ok (elim cell [ none ↦ cells | some c ↦ c ∷ cells ])

  unfoldable pub load_cells : String → Result (List (CellRecord F))
  unfolding list_paths load_paths
  load_cells matrix_list_path =
      if py.is_file matrix_list_path
      then (py.read_text matrix_list_path >>= λ text. load_paths (list_paths (py.splitlines text)))
      else raise (library_error ("matrix list not found: " ++ matrix_list_path))

pub record Summary (F : Type 0) : Type 0 where
  pub matrix_ts : String
  pub cell_count : ℕ
  pub cells : List (CellRecord F)

unfoldable pub build_summary : {F : Type 0} → List (CellRecord F) → String → Summary F
build_summary cells matrix_ts = record {
  matrix_ts = matrix_ts;
  cell_count = length cells;
  cells = cells;
}

unfoldable pub cell_label : {F : Type 0} → CellRecord F → String
cell_label cell = cell.strategy ++ ("-" ++ cell.backend)

-- A dict whose keys are pairs, as its items.
abbrev pub CellIndex : Type 0 → Type 0
CellIndex F = List ((String × String) × CellRecord F)

abbrev pub is_key : String → String → String × String → Bool
is_key label scenario key = key.0 == label && key.1 == scenario

module _ {F : Type 0} where
  -- `indexed.get((label, scenario))`
  unfoldable pub get_cell : String → String → CellIndex F → Option (CellRecord F)
  get_cell label scenario [] = none
  get_cell label scenario ((key, cell) ∷ indexed) =
      if is_key label scenario key then some cell else get_cell label scenario indexed

  unfoldable pub set_cell : String → String → CellRecord F → CellIndex F → CellIndex F
  set_cell label scenario cell [] = ((label, scenario), cell) ∷ []
  set_cell label scenario cell ((key, c) ∷ indexed) =
      if is_key label scenario key
      then (key, cell) ∷ indexed
      else (key, c) ∷ set_cell label scenario cell indexed

  unfoldable pub index_from : CellIndex F → List (CellRecord F) → CellIndex F
  unfolding set_cell cell_label
  index_from indexed [] = indexed
  index_from indexed (c ∷ cells) = index_from (set_cell (cell_label c) c.scenario c indexed) cells

  -- `_index_cells_by_label`
  unfoldable pub index_cells_by_label : List (CellRecord F) → CellIndex F
  unfolding index_from
  index_cells_by_label cells = index_from [] cells

abbrev pub scenarios : List String
scenarios = "read_heavy" ∷ "mixed" ∷ "mutation_burst" ∷ []

abbrev pub cell_labels_full : List String
cell_labels_full =
    "ttl-redis" ∷ "ttl-memory" ∷ "operation-redis" ∷ "operation-memory" ∷ "tag-redis" ∷ "tag-memory"
    ∷ "no_cache-none" ∷ []

abbrev pub strategies : List String
strategies = "ttl" ∷ "operation" ∷ "tag" ∷ []

abbrev pub backends : List String
backends = "redis" ∷ "memory" ∷ []
