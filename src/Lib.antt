-- ===== src/Lib.antt =====
-- A model of LitWeave, which writes literature surveys by a graph of agents over language
-- models, with the theorems that make its host-side checks and stores correct.
--
-- A run goes through planner, wide research, deep research, synthesis and writing. Modelled are
-- these five nodes, the graph that runs them and the command line that starts it, the stores,
-- gateway and structured calls that they stand on, and the schemas that they exchange.
--
-- Base: numbers' tests, lists, sets as lists, dictionaries in insertion order, text.
-- Roles: `AgentRole` of src/litweave/llm/roles.py.
-- Runtime: src/litweave/runtime. World is the tables, the clock and the counters, and
-- `transaction` of db.py with the opening of the pool; Errors the exceptions and
-- `classify_exception` of errors.py; Budget
-- `BudgetManager` of budget.py; Runs `RunManager` of runs.py; Evidence `EvidenceStore` of
-- evidence.py; Json JSON values and `sanitize_args`; Gateway `ToolGateway` of tool_gateway.py,
-- with Calls on its audit rows, Cache on its cache and Quiet on what a call leaves alone; Trust
-- `wrap_untrusted` of trust.py. World/Ends has postconditions of actions, with what an action
-- leaves alone, and Runs/Tending the actions that change the row of one run alone.
-- Schemas: src/litweave/schemas, each model a record and its validators a Boolean check.
-- State: `SurveyState` of src/litweave/state.py.
-- Llm: Model is a language model as the sequence of its answers; RateLimit is the token bucket
-- of src/litweave/llm/rate_limit.py, with the lateness of its sleeps as an argument, and
-- RateLimit/Limited its router, with Shared on it; Structured is
-- `structured_call` of src/litweave/llm/structured_output.py.
-- Llm/Providers and Llm/Router are providers.py and router.py, with Routing on both.
-- Tools: the lookups of src/litweave/tools. Http is the loop of requests that both make, with
-- Retries on it; S2 is s2_lookup.py, Arxiv is arxiv_lookup.py, and Lookups is on both.
-- Synthesis: src/litweave/synthesis/synthesizer.py. Grounding is `_validate_grounding`, Tokens
-- the prompt and its estimate, Rerank `_top_k_rerank`, Node `make_synthesizer_node`;
-- Node/Tries, Node/Sections, Node/Loop and Node/Justified go from one call of the model to the
-- whole node.
-- Agents: src/litweave/agents. Planner is planner.py; Wide is the end of each section of
-- researcher_wide.py, where papers are handed over, Wide/React its loop over the model's turns
-- and Wide/Node the node. Deep is researcher_deep.py: Fetch gets
-- abstracts, Store writes cards, Sections and Queue follow the papers through the node.
-- Writing: the writer of src/litweave/writing/stub.py, with Drafts on what it writes.
-- Graph: `build_graph` of src/litweave/graph.py; Pipeline is the five nodes in sequence.
-- Cli: src/litweave/cli.py. Launched is on the table of runs after `run`, Board its abstract
-- view, Program the command with the real graph, and Status the command `status`.
-- Prompts: src/litweave/prompts/loader.py, with Contract on what a loaded template
-- has and Tools on its tools, whose policies are in Runtime/Registry.
-- Examples: runs at concrete inputs.
--
-- An action takes a World and gives a result or an exception with the World after it. Loops are
-- structural recursion: over the outline, over papers, over the retries and turns left. The
-- limiter's wait alone has fuel, and a fuel of 1 is shown to be enough, since no sleep is
-- shorter than asked for. Numbers are natural: token counts, milliseconds, and confidences as
-- millionths. Sets are lists compared by membership. A section of the outline is the record
-- itself and not its dump.
--
-- Arguments of the model are what the source calls and does not hold: the language models,
-- pydantic's parsing, the JSON schema checker, regular expressions, SHA-256, random ids, prompt
-- templates, the servers that are asked, and the search tools. The float average of
-- confidences is compared exactly, by cross multiplication. The database is taken to answer;
-- its foreign keys and unique columns are checked where the program can break them, but for
-- the random ids of tool calls, which are taken not to repeat.
--
-- Arguments are also langgraph, which is taken to run a chain of nodes in the order of its edges,
-- and what the search tools do; several theorems have it that these touch no table.
--
-- Not modelled: the two search tools, the texts of prompts, tracing,
-- and the reading of arguments and the environment, which are input and output or the wiring of
-- libraries; nor the extraction of wrapped content, which no part of the program calls.
pub mod Base
pub mod Roles
pub mod Runtime
pub mod Schemas
pub mod State
pub mod Llm
pub mod Synthesis
pub mod Tools
pub mod Agents
pub mod Writing
pub mod Graph
pub mod Cli
pub mod Examples
pub mod Prompts
