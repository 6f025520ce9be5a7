-- ===== src/Lib.antt =====
-- The host of Ontheia, a self-hosted platform for agents: the TypeScript under host/src. The host takes
-- runs of agents and chains over HTTP, streams their events, keeps what they say in a database, gives them
-- memory in namespaces, keeps sessions of users, and starts the MCP servers whose tools they call. The
-- development models the parts that decide: which configurations of servers are admitted, who may read which
-- memory, which sessions live, which chains are well formed and how they run, how documents are cut into chunks,
-- which rows the turns of an agent are written to, which requests for runs are accepted, what of a history is sent,
-- what metadata is stored, how secrets are masked, and which processes of servers are known to run.
--
-- Parts, files and code:
-- - McpConfig (host/src/orchestrator/validator.ts): `validateMcpServersConfig` decides on a configuration of
--   MCP servers before the orchestrator starts one. McpConfig has the entry and its commands, McpConfig.Docker
--   the checks of `validateDockerSpec`, McpConfig.Allowlist `matchesAllowlist` with the regular expressions it
--   builds. Parameters: `regex_other`, the engine on a pattern with syntax beyond plain characters, `.` and
--   `.*`; `parse_host`, the host that `new URL` finds, in lower case, `none` where it throws. The JSON schema's
--   verdict is part of the payload.
-- - Namespace (host/src/memory/namespaces.ts): segments, slugs, templates, the readable namespaces of a user and
--   `isNamespaceAllowed`; Namespace.Patterns has `validateNamespacePattern` with the edit distance. Parameter:
--   `fold`, what `toLowerCase` makes of a code unit outside ASCII. The final-sigma rule of `toLowerCase`, which
--   looks at the neighbours of a character, and surrogate pairs are outside what `fold` can say.
-- - Chunker (host/src/runtime/ingest/chunker.ts): `chunkText` in both modes. Chunker.Lines has the questions on
--   single lines, Chunker.Sections the headings. The loop over lines stands twice in the source and once here.
--   Parameters: `rounded`, the rounded floating-point product for the overlap, and the caller's metadata.
-- - Sessions (host/src/routes/security.ts): `createSession`, `loadSession` with its renewal, `requireSession`, and
--   `sanitizeEmail`, on a table of sessions; the readings of the clock are arguments.
-- - Retry (host/src/runtime/fetch-retry.ts): `fetchWithRetry`; what each attempt gives is a parameter.
-- - Settings (host/src/runtime/system-flags.ts): `getSystemFlag` and `getSystemNumber` with their caches; the
--   answer of the database is a parameter.
-- - ChainGraph (host/src/routes/chain-utils.ts): `validateChainGraphSpec`, in the order of the code: the
--   identifiers, the edges, the search for a cycle and the longest path (both in ChainGraph.Search).
-- - AgentTurn (host/src/runtime/agent-turn-tracker.ts): the state machine that maps the events of a run to
--   writes of rows, `feedAgentTurnEvent`. A row reference is a number, fresh for each turn; the builder of the
--   metadata is a parameter. AgentTurn.Run has sequences of events.
-- - ChainRunner (host/src/runtime/chain-runner.ts): the engine that runs the steps of a chain, `run` and `runStep`
--   with the handlers of branch, loop, retry, delay and transform. ChainRunner.Values has the values of
--   JavaScript, ChainRunner.Templates the placeholders and conditions, ChainRunner.Engine the state and what a step
--   does to it, ChainRunner.Environment settings and edges. Parameters, in the record `Runner`: `perform`, the handlers that call providers, tools, memory,
--   agents and URLs; `wait`, what a wait brings; `parse_json` and the conversions of numbers and objects to
--   texts. Debug events are left out, and so is `parallel`: the steps here run one after the other.
-- - History (the same file, and host/src/runtime/provider-run.ts): `sanitizeHistory`, what a provider gets of the
--   history, with `stripImagesFromToolContent`; History.Images has what becomes of images in a text. Parameters: JSON, and
--   the part that stands for an image.
-- - Policy (host/src/routes/policy-utils.ts): memory policies as they are stored, read, merged and loaded.
--   Parameters: what `Math` makes of a number, and the rows of the database.
-- - Metadata (host/src/memory/metadata.ts): `stripReservedMetadata` on what callers send, and `sanitizeMetadata` on
--   what is written, as a list of rules, one for each key; Metadata.Judged has what the rules make of a field.
--   Parameters: the tests on numbers, and `String` on arrays and objects.
-- - RunRequest (host/src/routes/run-utils.ts): `parseRunRequest` on the body of a request, with messages, memory
--   options, the approval mode and permissions. Parameters: `String`, `Math.floor` and the range of `top_k`.
-- - Secrets (host/src/secrets/resolver.ts): `resolveSecretRef` and `resolveEnvMap`, given the sources of secrets.
-- - Usage (host/src/runtime/provider-run.ts): `normalizeUsage` on the token counts of providers, as natural numbers.
-- - Processes (host/src/orchestrator/runner.ts): the class `Runner` that spawns the processes of MCP servers. Its
--   listeners and the parts of `stop` between two waits are functions on one state; Processes.Live has the relation of
--   the states they reach in any order. Processes.Table is the `Map` by name, Processes.Objects the
--   process objects, Processes.Listing `stopAll` and `list`. Parameters: the environment of the
--   host, the docker host, and the texts of exit codes and dates.
-- - Prelude: tests on numbers, lists, and JavaScript strings as lists of UTF-16 code units with the methods the
--   source calls (`trim`, `split`, `startsWith`, `includes`, `replace` on placeholders).
-- A `Map` or a plain object is an association list or a function from keys; a `Set` is a list without
-- duplicates; an error that is pushed is a constructor with what its message names; an exception that leaves a
-- function is `none`.
--
-- Fuel: only `dfs` and `depth` of ChainGraph recurse on fuel. It is the depth of the call stack, and running
-- out, `none`, is the `RangeError` of JavaScript. A call of the search is open at most once for each node, so
-- that a depth of one more than the nodes is enough; so it is for the longest path where there is no cycle.
-- All else is recursion on the input.
--
-- Not modelled: HTTP routes, the database and its queries, the calls of model providers and of MCP servers,
-- timers, the web interface (webui), the scripts, and the texts of messages. Of the chain runner, parallel steps
-- and the handlers that call out are not modelled. The loops that call providers and the memory adapter are
-- logic of the same kind and not part of this development yet.
pub mod AgentTurn
pub mod ChainGraph
pub mod ChainRunner
pub mod Chunker
pub mod History
pub mod McpConfig
pub mod Metadata
pub mod Namespace
pub mod Policy
pub mod Prelude
pub mod Processes
pub mod Retry
pub mod RunRequest
pub mod Secrets
pub mod Sessions
pub mod Settings
pub mod Usage
