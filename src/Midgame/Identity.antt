-- ===== src/Midgame/Identity.antt =====
-- What the identity of a configuration reads of its pattern tables.
use vibe_othello_engine.Base.{ℕ, ◌≡◌, refl, some}
use vibe_othello_engine.Patterns.Bundle.{PatternTableBundle}
use vibe_othello_engine.Evaluation.Config.{EvaluationConfig}
use vibe_othello_engine.Midgame.Session.{pattern_tables_identity, evaluation_config_identity}

-- Two bundles have the same tables in the families that the identity reads.
pub record AgreeOnRead (a b : PatternTableBundle) : Type 0 where
  pub corner_2x3 : a.corner_2x3 ≡ b.corner_2x3
  pub corner_3x3 : a.corner_3x3 ≡ b.corner_3x3
  pub edge_8 : a.edge_8 ≡ b.edge_8
  pub edge_x_10 : a.edge_x_10 ≡ b.edge_x_10
  pub diagonal_8 : a.diagonal_8 ≡ b.diagonal_8
  pub inner_row_8 : a.inner_row_8 ≡ b.inner_row_8

tables_identity :
    (hash : ℕ) (a b : PatternTableBundle)
    → AgreeOnRead a b
    → pattern_tables_identity hash (some a) ≡ pattern_tables_identity hash (some b)
unfolding pattern_tables_identity
tables_identity hash a b v =
    rw (v.corner_2x3, v.corner_3x3, v.edge_8, v.edge_x_10, v.diagonal_8, v.inner_row_8) refl

-- Configurations whose tables differ only in rows, columns, short diagonals, corners of two by four
-- or active families have one identity.
pub evaluation_config_identity-AgreeOnRead :
    (config : EvaluationConfig) (a b : PatternTableBundle)
    → AgreeOnRead a b
    → evaluation_config_identity (record config { pattern_tables = some a })
      ≡ evaluation_config_identity (record config { pattern_tables = some b })
unfolding evaluation_config_identity
evaluation_config_identity-AgreeOnRead config a b v = simp (tables_identity _ a b v) refl
