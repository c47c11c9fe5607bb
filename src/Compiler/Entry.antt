-- ===== src/Compiler/Entry.antt =====
-- compiler.py: `__init__`, `visit_Module`, `compile`, `_synthesize_lambda_entry`, `get_metadata`.
pub mod Init
pub mod Module
pub mod Json
pub mod Lambda
pub mod Metadata
