-- ===== src/Config/Given.antt =====
-- What a command line has to look like for its configuration to validate.
use llm_serving_performance.Config.Text.{Text}
use llm_serving_performance.Floats.{Floats}
use llm_serving_performance.Config.Types.{Config}
