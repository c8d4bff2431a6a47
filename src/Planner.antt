-- ===== src/Planner.antt =====
-- The planner of src/diffusers_dynamic_offloader/dynamic_offload.py: orders of candidates, greedy
-- selection under a budget, and the automatic budgets. Sizes are bytes.
pub mod Orders
pub mod Selection
pub mod AutoBudget
