-- ===== src/Patterns.antt =====
-- src/evaluation_patterns.cpp: patterns of squares and the scores of their states.
pub mod Corners
pub mod Lines
pub mod Diagonals
pub mod Index
pub mod Rules
pub mod Tables
pub mod Squares
pub mod Bundle
pub mod Digits
pub mod Sides
pub mod RuleSides
