-- ===== src/Lib.antt =====
-- openapi-to reads OpenAPI documents, lets plugins generate code from them, and offers the same work
-- to agents through an MCP server. This library models parts of packages/core and packages/mcp and
-- proves what makes them correct.
--
-- The parts and how they interact:
-- - Common: what the other modules share. JavaScript strings are lists of UTF-16 code units (Strings),
--   `Set` and `Map` are lists (Lists, SortedSets, Dictionary), comparators are signs (Comparison),
--   `sort` is a stable insertion sort (Sorting), JSON values are trees (Json), thrown errors are
--   values (Results), `decodeURIComponent` and `replaceAll` are in Uri, UTF-8 in Encoding;
--   a JavaScript number that is not a natural number is in Numbers: `NaN`, an infinity, or the whole number
--   below it and whether it is whole.
-- - Diagnostics: packages/core/src/diagnostics.ts. Every other part reports through it:
--   `sortDiagnostics` is sort_diagnostics, `summarizeDiagnostics` is summarize_diagnostics,
--   `hasDiagnosticErrors` is has_diagnostic_errors.
-- - Selection: packages/core/src/openapi/selection/selection.ts and types.ts, the persistent selection
--   of operations. `normalizeOperationSelection`, `applyOperationSelectionMutation`,
--   `mergeOperationSelection` and `hashOperationSelection` keep their names in snake case;
--   Selection/Validation has `validateOperationSelectionManifest` and
--   `parseOperationSelectionManifest`, and Selection/Validation/Roundtrip
--   `serializeOperationSelectionManifest`.
-- - PlanStore: packages/mcp/src/generation/plan-store.ts. The private fields of `GenerationPlanStore`
--   are the record Store; `create`, `verify`, `consume`, `clear`, `cleanup` and `deleteEntry` take a
--   store and give the next one, with an error or a result. PlanStore/Replay has the runs of the store.
-- - References: packages/core/src/openapi/projection/reference-graph.ts. References/Tokens is about
--   keys and references, References/Closure about `resolveOpenAPIComponentClosure`: its local sets
--   `visited` and `active` and its diagnostics are the record Walk.
-- - RemotePolicy: packages/core/src/config/remotePolicy.ts, judged by the host test and the default limits of
--   packages/core/src/openapi/sourceLoader.ts.
-- - ResponseStatus: packages/core/src/OpenAPIContext/responseStatus.ts. `classifyResponseStatusCodes`
--   is in the module itself, the descriptors of an operation are in ResponseStatus/Responses.
-- - Catalog: packages/core/src/openapi/catalog. `assignOperationIdentities` of identity.ts is in the
--   module itself, search.ts in Catalog/Search, limits.ts in Catalog/Limits.
-- - Diff: packages/core/src/diff/index.ts. Diff/Values is `record` and `sameValue`, Diff/Schemas is
--   `compareSchema`, Diff/Contents and Diff/Documents are `diffOpenAPIDocuments`, one function for each
--   loop body; calls of `add` are lists of changes. Whether `===` finds two objects to be one object in
--   memory is an argument, since a tree does not show it.
-- - PluginGraph: packages/core/src/pluginManager/graph.ts. `sortPluginsByStages` keeps its name in snake
--   case; its local `visited`, `visiting` and `stages` are the record StageState, and `findStage` counts
--   from one, so that 0 is a plugin in no stage.
-- - Artifacts: packages/core/src/artifacts/index.ts and types.ts. Artifacts/Serialization is
--   `stableJSONStringify` and the bytes of an artifact, Artifacts/Materialization is
--   `materializeArtifacts` with its local maps in the record Collected. Common/Paths and
--   Common/RelativePaths have the calls of `node:path`, for a POSIX host.
-- - OutputRoot: packages/core/src/config/outputRoot.ts. `resolveConfiguredOutputRoot`,
--   `portableRelativeDirectory` and `protectedOutputPath` keep their names in snake case; a path that is
--   resolved is the list of its segments. OutputRoot/PortableNames has the
--   tests on one segment. OutputRoot/Segments, Stacks, Normalization, Portable and
--   Protection are the lemmas on its steps, OutputRoot/Containment puts them together.
-- - GenerationLock: packages/mcp/src/generation/generation-lock.ts, which lets one generation of the
--   server run at a time. The lock is the list of the calls of `run`; each promise of a call is a phase
--   of it, and what happens to them, in any order, is the function step.
--
-- Fuel: `create` evicts with one round for each entry, and each round deletes an entry. `visit` of components nests
-- one call deeper than the graph has components, since the keys on its path are different components. `follow` takes as many rounds as
-- the document has references to responses, and one more, since it stops at one that it has seen.
-- `compareSchema` calls itself on properties, which nest less deep than the schemas; its fuel is the
-- sum of the depths of the two schemas, and one more. `visit` of the plugins nests one call deeper than
-- there are names of plugins.
--
-- Not modelled: the clock, random identifiers, HMAC and SHA-256, localeCompare, JSON.parse and
-- JSON.stringify are arguments; the abort signal of the comparison, stack traces and shared or cyclic JavaScript
-- objects are left out; NFKC and the Unicode regular expressions of the search are arguments;
-- `toLowerCase` is that of ASCII. File access, network access, the templates of
-- the plugins, the command line and the release scripts are not part of the library yet.
pub mod Common
pub mod Diagnostics
pub mod Selection
pub mod PlanStore
pub mod References
pub mod RemotePolicy
pub mod ResponseStatus
pub mod Catalog
pub mod Diff
pub mod PluginGraph
pub mod Artifacts
pub mod OutputRoot
pub mod GenerationLock
