-- ===== src/Examples/Process.antt =====
-- The process's lifespan, and the report of a matrix of two cells.
use Prim.Native.String.{◌++◌}
use hse_graduate_qualificati.Base.{
  ℕ, String, ◌≡◌, refl, true, nat_eq, ◌==◌, Option, none, some, List, [], ◌∷◌, map, contains,
  if◌then◌else◌,
}
use hse_graduate_qualificati.Base.Dict.{Dict, lookup, has_key}
use hse_graduate_qualificati.Base.Exec.{ok, raise, library_error}
use hse_graduate_qualificati.Base.Int.{pos}
use hse_graduate_qualificati.Base.Outcome.{returned, expected}
use hse_graduate_qualificati.Cli.{make_backends}
use hse_graduate_qualificati.Cli.Backends.{backend_for, make_backends-lookup}
use hse_graduate_qualificati.Cli.Lifespan.{Services}
use hse_graduate_qualificati.Dsl.Registry.{OperationRegistry}
use hse_graduate_qualificati.Dsl.Schema.{in_memory}
use hse_graduate_qualificati.Examples.Memory.{profiles, hot}
use hse_graduate_qualificati.Report.{
  Python, CellRecord, required_top_keys, load_cells, load_paths, scenarios, strategies,
}
use hse_graduate_qualificati.Report.Drawing.{main, draw_grouped_bar, chart_redis_vs_memory, Written}
use hse_graduate_qualificati.Report
use hse_graduate_qualificati.Report.Cells.{Loads, Comes, load_paths-Loads, main-Comes}
use hse_graduate_qualificati.Report.Charts.{shown_value, charts_show}

make_backends-lookup_example :
    (backends : Dict ℕ) × (make_backends 1 (λ ps. 2) profiles ≡ some backends)
    × (lookup "hot" backends ≡ some (backend_for 1 2 in_memory))
unfolding lookup has_key
make_backends-lookup_example = make_backends-lookup 1 (λ ps. 2) profiles "hot" hot (refl, tt) refl

abbrev registry : OperationRegistry
registry = record {
  queries = [];
  mutations = [];
  tables = [];
  cache_profiles = profiles;
  cache_rules = [];
}

-- The world counts the calls; the pool is a number, and closing pool 9 raises.
abbrev services : Services ℕ String ℕ ℕ ℕ
services = record {
  load = λ dsl_path schema_path w. (ok registry, w);
  read_text = λ path w. (ok "type Query", w);
  parse_int = λ t. ok (pos 1);
  create_pool = λ dsn low high w. (ok (some 7), w);
  from_url = λ url w. (ok 5, w);
  redis_backend = λ client counters. client;
  memory_backend = λ counters ps. 2;
  build_graphql_app = λ sdl r pool backends requests w. (ok "app", w);
  close_pool = λ pool w. (if nat_eq pool 9 then raise (library_error "closed") else ok tt, w);
  close_redis = λ client w. (ok tt, w);
}

abbrev environ : Dict String
environ = ("POSTGRES_DSN", "postgres://db") ∷ []

-- A JSON value is a text; the texts are reports in which each value is the key that leads to it.
abbrev python : Python String ℕ
python = record {
  zero = 0;
  of_int = λ n. 1;
  percent = λ v. v;
  str = λ j. j;
  int = λ j. returned (pos 4);
  float = λ j. returned 9;
  subscript = λ key j. returned key;
  keys = λ j. ok required_top_keys;
  load_json = λ path. if path == "gone.json" then expected "No such file" else returned "{}";
  is_file = λ path. true;
  read_text = λ path. ok "text";
  splitlines = λ t. "a.json" ∷ "gone.json" ∷ "" ∷ "b.json" ∷ [];
  strip = λ line. line;
}

abbrev cell : String → CellRecord ℕ
cell path = record {
  strategy = "strategy";
  backend = "backend";
  scenario = "scenario";
  duration_s = pos 4;
  latency_p50_ms = 9;
  latency_p95_ms = 9;
  latency_p99_ms = 9;
  hit_ratio = 9;
  invalidations = pos 4;
  rps_avg = 9;
  framework_backend = "framework_backend";
  report_path = path;
}

loaded :
    load_paths python ("a.json" ∷ "gone.json" ∷ "b.json" ∷ [])
    ≡ ok (cell "a.json" ∷ cell "b.json" ∷ [])
unfolding load_paths contains
loaded = refl

load_paths-Loads_example :
    Loads python ("a.json" ∷ "gone.json" ∷ "b.json" ∷ []) (cell "a.json" ∷ cell "b.json" ∷ [])
load_paths-Loads_example =
    load_paths-Loads python ("a.json" ∷ "gone.json" ∷ "b.json" ∷ [])
      (cell "a.json" ∷ cell "b.json" ∷ []) loaded

ran : (out : ℕ × Option (Written python)) × (main python "m.list" "20260101T000000Z" ≡ ok out)
unfolding main load_cells contains
ran = (_, refl)

main-Comes_example :
    (cells : List (CellRecord ℕ)) × (load_cells python "m.list" ≡ ok cells)
    × Comes python cells ran.0
main-Comes_example = main-Comes python "m.list" "20260101T000000Z" ran.0 ran.1

abbrev slow : CellRecord ℕ
slow = record (cell "b.json") {
  strategy = "ttl";
  backend = "redis";
  scenario = "mixed";
  latency_p95_ms = 30;
}

charts_show_example :
    (draw_grouped_bar python (slow ∷ []) CellRecord.latency_p95_ms none ("ttl-redis" ∷ [])
      ≡ (
        "ttl-redis",
        map (shown_value python (slow ∷ []) CellRecord.latency_p95_ms none "ttl-redis") scenarios,
      )
        ∷ [])
    × (chart_redis_vs_memory python (slow ∷ [])
        ≡ map
            (λ scenario. (
              scenario,
              map
                  (λ backend. (
                    backend,
                    map
                        (λ strategy.
                          shown_value python
                            (slow ∷ [])
                            CellRecord.latency_p95_ms
                            none
                            (strategy ++ ("-" ++ backend))
                            scenario)
                        strategies,
                  ))
                  Report.backends,
            ))
            scenarios)
charts_show_example =
    charts_show python (slow ∷ []) CellRecord.latency_p95_ms none ("ttl-redis" ∷ [])
