-- ===== src/Lib.antt =====
-- The pipeline for map data: a verification library of its control plane.
--
-- A pipeline is a list of stages. Each runs a plugin of a catalog, takes its inputs from the outputs
-- of earlier stages, declares the effects that it may have, and reserves resources of the host. The
-- core package decides whether a definition may run (validation), whether an effect is allowed
-- (authorization), whether a host admits one more stage (admission), what the identities of jobs
-- and values are (identity), whether legacy state and services may be taken over (migration), and
-- whether a deployment of a definition may be applied (readiness). A context that is created for a
-- ready deployment opens invocations of stages, authorizes their effects by the authorization module
-- and validates what they put out. The store of runs records what was run: its clients begin and end
-- runs and stage attempts and keep checkpoints, whose values are canonical JSON of the identity
-- module.
-- Validation and authorization share the lists of effects, the test of resource URIs and the
-- comparison of operations.
--
-- Files and sources:
--   Base               shared names: tests, lists, dictionaries, results, numbers, text order, sort
--   Core/Types         packages/core/src/types.ts, one record or data type for each type of the
--                      source; identifiers are written with underscores
--   Core/Platform      the runtime: `new URL`, `trim` and `normalize("NFC")`, parameters of all that
--                      uses them
--   Core/SameValues    sameValues of packages/core/src/validation.ts, which sameOperations of
--                      packages/core/src/readiness.ts repeats
--   Core/Identity      packages/core/src/identity.ts: normalize, canonicalize, the checks of the
--                      parts of a key, and (Keys) the functions that make keys, over a parameter
--                      for the SHA-256 of a canonical text
--   Core/Admission     packages/core/src/admission.ts: evaluateAdmission
--   Core/Authorization packages/core/src/authorization.ts
--   Core/Validation    packages/core/src/validation.ts: validateDefinition, cut at the source's own
--                      blocks into Catalog, Inputs, Bindings, Requests, Stages, Sinks and Definition
--   Core/Migration     packages/core/src/migration.ts: bindLegacyImport and topologyCutoverIssues
--   Core/Readiness     packages/core/src/readiness.ts: Matches, Sources, Hosts and Apply are
--                      assertApplyReady; Context is ApplyAuthorizationContext, with Begin, Bind,
--                      Effects, SourceOutput and Outputs for its methods and Steps for sequences of
--                      their calls
--   StateSqlite        packages/state-sqlite/src/index.ts: Tables (rows and queries), Actions (throws
--                      and transactions), Methods (one action for each method), Calls (sequences)
--   FoodRuntime        packages/food-runtime/scripts: WorkBudget is lib/source-work-budget.mjs, Queue is
--                      enrichment/queue.mjs, with Methods, Requeue and Recover for its methods and
--                      Calls for sequences of calls
--
-- How the program is modelled:
--   * A number is a natural number, a negative integer or NaN, exact; fractions, infinities and the
--     rounding of sums above 2^53 are left out. The checks for safe integers are written as in the
--     source, and what passes them is exact in the source too.
--   * A text is a sequence of code points. Sorting is by code points, where the source sorts by UTF-16
--     units; no statement depends on which of the two orders it is.
--   * An error message or an issue is a constructor with the values that the message interpolates.
--   * An object used as a dictionary has its own entries only: what JavaScript finds on a
--     prototype, under keys such as `constructor`, is not there. The entries of an object keep their
--     order; the exception that JavaScript makes for keys that are array indices is left out.
--     The canonical text of a value is represented by the value that it prints.
--   * What the runtime computes is a parameter: the URL parser, dates, SHA-256, the JSON text of an
--     object and `localeCompare`. The time of a call and the registry of datasets are arguments.
--   * An object that is compared by identity, and a context, is a number; a `WeakMap` is a function
--     from numbers. A call that throws leaves them as they were, as the source changes them last
--     (but for beginStageInvocation on inputs that cannot be cloned). An infinite expiry is an absent one.
--   * A loop is structural recursion on its list; no definition needs fuel.
--   * A table is a list of rows, and a statement a function on it that applies the constraints of the
--     schema: primary and foreign keys and checks. A method is a function from the tables to a
--     result and tables, so a throw after a write keeps the write unless a transaction is rolled
--     back. Statements of several connections do not interleave within a transaction, since the
--     source opens it with BEGIN IMMEDIATE; a method without one writes in a single statement.
--   * The configuration `with` of a stage, the brands of the type checker and the freezing of
--     objects have no part in the decisions and are left out.
--
-- Not modelled: execution and delivery (packages/executor, packages/sdk), the observed target
-- contract, the adapters and the artifact store, which read and write files and databases, the
-- profiles, the command line, and the other scripts of the food runtime.
pub mod Base
pub mod Core
pub mod StateSqlite
pub mod FoodRuntime
