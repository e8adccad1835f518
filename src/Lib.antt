-- ===== src/Lib.antt =====
-- Daisy-workflow: a server that runs workflows, which are graphs of plugin calls. An HTTP API parses
-- and stores a workflow (`parseDag`); a worker takes an execution from a queue and runs it
-- (`executeDag`), asks the plugin registry for each node's output, and writes every node's state to
-- Postgres, from where an execution is resumed. Around the engine stand the permissions of a request,
-- the guardrails of the text that agents read and write, the compliance rules of a workspace, the
-- routes that choose an agent, and the tokens of the sessions. In the browser a workflow is also
-- edited as a text, which is parsed to the same model and printed from it.
--
-- The files and the code that they model (paths from the repository's root):
--   Common and its children: tests, lists, maps, results, and the pigeonhole on texts.
--   Js: JavaScript values, property access and `getPath` of backend/src/engine/executor.js.
--   Dsl/Graph: adjacency, indegrees and the decrement of Kahn's algorithm, which
--     backend/src/dsl/parser.js and backend/src/engine/executor.js both have; Dsl/Graph/Frontier is the
--     invariant of that loop that both proofs use.
--   Dsl/Workflow, Dsl/Parser: backend/src/dsl/parser.js (`parseDag`, `normalizeKeyValueList`).
--   Engine/Limits: backend/src/engine/limits.js.
--   Engine/Executor: backend/src/engine/executor.js and backend/src/engine/scheduler.js. State is the
--     state of a run (ctx, nodeResults, remaining, ready, aborting), Nodes the two halves of
--     `runOneInner`, Schedule `buildDag`, the resumption, the loop over the layers and the conclusion.
--     Effects and Finishes, Shuffling, Layer, Rounds and Ending carry the invariant of the loop; Order,
--     Completion, Parsed, Unrun and Attempts have the theorems.
--   Engine/NodeStates: backend/src/engine/nodeStateStore.js.
--   Engine/Batch: backend/src/engine/batch.js.
--   Auth/Permissions: backend/src/auth/permissions.js.
--   Auth/Tokens: the refresh tokens of backend/src/auth/tokens.js and the refresh route of
--     backend/src/api/auth.js. Sessions is the abstract machine, a map from hashes to sessions that
--     each operation changes; its children relate the table to it. Rotation and Replay follow a token
--     that was exchanged. The retention job, which also deletes rows of refresh_tokens, is not among
--     the operations.
--   Auth/Quotas: backend/src/auth/quotas.js.
--   Api/Executions: resume, skip, respond and delete of backend/src/api/executions.js, over the node
--     states of Engine/NodeStates and the queue of backend/src/queue/queue.js.
--   TextDsl: the text form of workflows, frontend/src/dsl. Lexer is lexer.js, Parser parser.js and
--     Serializer serializer.js; Lexer/Steps, Parser/Takes and Parser/Ends show that the loops end.
--     Quoting, Pieces, Printing, PrintedSteps and Printed lex what the serializer writes; Canonical
--     has the models that the text form can hold and their tokens; Reading and RoundTrip parse them.
--     Words, Shapes and Shaped follow the shape of what the lexer and the parser give.
--   Routing: backend/src/routing/dispatcher.js.
--   Guardrails: backend/src/guardrails/apply.js.
--   Compliance: backend/src/compliance/policies.js and backend/src/compliance/enforce.js.
--
-- How the code is read:
--   The nodes of a layer run at the same time. Their first halves run one after the other, in the
--     order of the layer, since none of them waits; their second halves run in an order that the
--     parameter `World.order` chooses, when the plugins have answered. The answers of the plugins are
--     the parameter `World.reply`, by node, batch item and attempt.
--   A throw that ends a run is the flag `faulted`, and the run is then `threw`.
--   The loop over the layers runs on fuel, one round for each declared node and one more. Each round
--     ends at least one node that had not ended, so the fuel is never used up before the loop stops.
--     The loop of the cycle check has the same fuel. The lexer of the text form has one round for each
--     code unit and its parser one step for each token; Lexer/Steps, Parser/Takes and Parser/Ends
--     show that this is enough on every text.
--   JSON.parse, the Ajv schema, the FEEL evaluator, the plugin registry, the plugins, the detectors and
--     the answers of the database are parameters.
--   The texts of the text form are lists of UTF-16 code units, as the code indexes them. The models that
--     are serialized have texts as the values of their inputs and outputs, as the parser gives them.
--   sha256, random tokens, identifiers and the time are parameters or arguments.
--   Texts are compared as they are; numbers in workflows are integers, NaN or Infinity; durations and
--     counts that are read from a text are rounded to doubles, of which the infinite are left out; the
--     tables of the database are lists of rows, and a query filters them.
--   What every object inherits (`constructor`, `toString`) is found where the code finds it: by `in` in
--     the array form of inputs, by the tests of `nodeResults[name]`, and where a required input is
--     looked up. Elsewhere an object has its own properties only. The resumption of a node named
--     `__proto__`, which would exchange the prototype of nodeResults, is left out.
--   A plugin only answers. That some plugins also write to the context they are given (memory.set,
--     memory.append, workflow.fire, the token count of chargeTokens) is left out of a run.
--
-- Left out: time stamps, spans, streaming, the delay between attempts, and the persistence hook of the
-- executor, whose errors are swallowed; the details and the storing of guardrail violations; lines and
-- columns in the errors of the text form; access tokens, passwords and the other routes of the HTTP
-- API; plugins, triggers, configurations, knowledge bases, evaluations and the pages of the user
-- interface, which are SQL, network and library calls.
pub mod Common
pub mod Dsl
pub mod Js
pub mod Engine
pub mod Auth
pub mod Api
pub mod Routing
pub mod TextDsl
pub mod Guardrails
pub mod Compliance
