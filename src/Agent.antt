-- ===== src/Agent.antt =====
-- The agent of src/sqllens/agent/core: the tool registry and the loop over the model's tool calls.
pub mod Access
pub mod Registry
pub mod Requests
pub mod Calls
pub mod Loop
