-- ===== src/Response.antt =====
-- The objects under responses/<job_id>.json, which `reply` of src/teammate_mcp/server.py writes.
use teammate_mcp.Base.Text.{Text}

-- `sent` holds the reply and the result of its delivery.
pub data Response : Type 0 where
  dispatching : Text → Response
  failed : Text → Response
  sent : Text → Text → Response
