-- ===== src/Policy/Safety/Order.antt =====
-- llmsvc/policy/common.py: `candidates` puts the default model last, whatever the scores are.
use llm_service_manager.Prelude.Float.{Float}
use llm_service_manager.Policy.Projection.{Projection}
