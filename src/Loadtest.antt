-- ===== src/Loadtest.antt =====
-- loadtest: the load shape of shape.py and the cell report of runner.py.
pub mod Shape
pub mod Runner
