-- ===== src/Lib.antt =====
-- Lightspeed Cloud Agents runs workflows of agent steps and approval gates, each step in a
-- sandbox. A definition is normalized (defaults, providers, permissions, secrets), cut into
-- groups of steps that may run together, and executed by an engine that retries failed attempts
-- and waits for approvals. This library models that core.
--
-- Where the code is, by file, with paths from the repository's root:
--   Retry         src/cloud_agents/workflow/core/execution.py: run_with_retries, is_transient_failure,
--                 activity_error_text
--   Schedule      the same file: chunk_parallel_groups
--   Credentials   the same file: validate_credential_reference, reject_secret_bearing_mcp
--   Scope         the same file: collapse_permissions; workflow/core/permissions.py: effective_tools
--   Providers     the same file: provider specs, enforce_provider_boundary, the provider's part of
--                 build_step_input
--   Normalize     the same file: apply_one_step_defaults up to normalize_definition
--   Workflow      src/cloud_agents/workflow/executor/temporal/workflow.py: AgentWorkflow
--   Approval      src/cloud_agents/workflow/security/auto_approve.py
--   Transcript    src/cloud_agents/workflow/core/models.py: StepTranscript
--   Breaker       src/cloud_agents/runtime/circuit_breaker.py
--   Progress      src/cloud_agents/workflow/core/state.py: derive_status
--   Limiter       src/cloud_agents/runtime/rate_limiter.py: TokenBucket
--   Authorizer    src/cloud_agents/workflow/security/policy_authorizer.py
--   Servers       src/cloud_agents/workflow/core/mcp_resolver.py
--   Alerts        src/cloud_agents/workflow/triggers/alert_trigger.py
--   Validation    src/cloud_agents/workflow/core/validation.py and
--                 src/cloud_agents/workflow/security/content_policy.py
--   Conditions    src/cloud_agents/workflow/core/conditions.py
--   Spawner       src/cloud_agents/spawner/base.py: spawn and destroy of AgentSpawner
--   Definitions   src/cloud_agents/workflow/core/definition_store.py
--   RunStates     src/cloud_agents/storage/run_state_store.py
--   Local         src/cloud_agents/workflow/executor/graph_translator.py and
--                 src/cloud_agents/workflow/executor/local/executor.py: the local engine,
--                 with run_workflow of src/cloud_agents/workflow/executor/local/api.py and
--                 src/cloud_agents/workflow/core/tool_validation.py
-- Steps has the data of a raw step, Json the values, Errors the results of code that raises
-- ValueError, Keys the dictionaries with distinct keys, and Prelude the names, tests and lemmas
-- that all share.
--
-- The local engine runs the same kind of definition step by step, with its state in the rows of
-- the run-state store: a segment is one run of its loop, from a start or an approval to a pause
-- or an end, on the row of its workflow. A definition is validated before it gets there, and
-- what validation lets through has the distinct keys that the engine's bookkeeping needs. The
-- alert trigger starts runs of stored definitions.
--
-- How state and errors appear: a method that changes an object takes the object and gives it
-- back; code that may raise gives a Result. The engine's coroutines are cut at their awaits: a
-- Task says which await a step stands at, a Happening is a signal, a task resumed with the
-- answer to its await, or the loop taking stock, and a run is a list of happenings in any order.
-- What an activity answers is thus any value at all; so are, for the two engines, the answers to
-- conditions (Local.Judged has the local engine's), fnmatch, the search for a policy's patterns,
-- the definition store as the alert trigger sees it, json.dumps, and pydantic's reading of a
-- non-negative integer, which are parameters.
--
-- Loops: the retry loop is given the number of attempts and every turn uses one; the loop of
-- chunk_parallel_groups is given as many turns as there are steps and each takes at least one;
-- activity_error_text looks at five exceptions, as the code does. The evaluation of a condition
-- is given the depth of its nested calls, and three is always enough. No result depends on fuel
-- running out.
--
-- Choices that narrow the model: letters, digits and spaces are the ASCII ones; the numbers in
-- JSON values are integers; a field that is missing from a raw step and one that is null are
-- one; an inline MCP configuration has the shape of MCPServerConfig already; URLs have no
-- brackets; clock readings are whole numbers and the limiter counts parts of tokens, without
-- rounding; a cancellation stands for every exception that the retry loop lets through; the
-- decision about a gate that arrived before its time was up wins; an approval policy is one that
-- its model accepts. In the engine the texts of prompts and messages, the dictionary sent to the
-- activity, time stamps and the stored authorization context are left out.
--
-- Not modelled: interpolation, the persistence of definitions and transcripts, schedules, chats,
-- the sandboxes and the executors of steps; calls of services, SDKs and databases, logging and
-- tracing.
pub mod Alerts
pub mod Approval
pub mod Authorizer
pub mod Breaker
pub mod Conditions
pub mod Credentials
pub mod Definitions
pub mod Errors
pub mod Json
pub mod Keys
pub mod Limiter
pub mod Local
pub mod Normalize
pub mod Prelude
pub mod Progress
pub mod Providers
pub mod Retry
pub mod RunStates
pub mod Schedule
pub mod Scope
pub mod Servers
pub mod Spawner
pub mod Steps
pub mod Transcript
pub mod Validation
pub mod Workflow
