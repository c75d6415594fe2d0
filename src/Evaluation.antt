-- ===== src/Evaluation.antt =====
-- src/evaluation.cpp and src/evaluation_features.cpp: the evaluation of a position.
pub mod Features
pub mod Edges
pub mod Config
pub mod Specs
pub mod Terms
pub mod Evaluate
pub mod Agree
pub mod Over
pub mod Sides
