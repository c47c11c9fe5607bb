-- ===== src/Models.antt =====
-- scripts/parse_models.py: service models in botocore's format.
mod Shapes
mod Members
mod Unvisited
mod Reach
mod Needs
mod Collect
mod Order
mod Sorting
mod Types
mod Closed
mod Service
mod Parse
mod Generate
mod Command
mod Tests
