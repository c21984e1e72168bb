-- ===== src/Lib.antt =====
-- A verification library for SQRL (packages/sqrl, packages/sqrl-common and
-- packages/sqrl-redis-functions).
--
-- SQRL is a rule language. A script is parsed into a syntax tree (packages/sqrl/src/api/ast.ts); the
-- parser state gives each feature, rule and where clause a slot; where clauses are combined by
-- AstBuilder, named by their truth tables, so that equal clauses share one slot, and tested for
-- overlaps when a feature is defined more than once; the slots are compiled to JavaScript, and an
-- execution computes them, calling the standard library (packages/sqrl/src/function) and packages
-- such as the redis functions, whose limits and counts are kept in redis.
--
-- The files and the code that they model:
--   Prelude            lists, dictionaries with text keys, errors (`invariant` and `sqrlInvariant`
--                      are `ensure`), tests on numbers
--   Value              packages/sqrl-common/src/SqrlObject.ts: plain values and isTruthy
--   Ast, Ast/Build     packages/sqrl/src/api/ast.ts, helpers/AstBuilder.ts and parts of ast/SqrlAst.ts
--   Ast/Walk           packages/sqrl/src/ast/Ast.ts: walks and JSON texts of trees
--   Where/TruthTable   packages/sqrl/src/compile/SqrlTruthTable.ts; Rows is the table as a list,
--                      Calculate is about one row and Laws about the whole table;
--                      Where/Stringify is the printing of clauses and Where/Text the sorting of names,
--                      with what Where/Text/Order says of the order
--   Where/Overlap      packages/sqrl/src/ast/astIntersects.ts; Sets, Calculate, Assignments and Clauses
--                      hold the lemmas, Gap is about texts that no clause names
--   Slots/Feature      packages/sqrl/src/slot/SqrlFeatureSlot.ts; Runs is the life of a slot, as steps
--   Slots/Slot         packages/sqrl/src/slot/SqrlSlot.ts, SqrlRuleSlot.ts and SerializedSlot.ts; Serial is
--                      the data in which slots are stored
--   Slots/Reason       the reasons of rules: getFeaturesFromReason of SqrlRuleSlot.ts and
--                      packages/sqrl/src/function/WhenFunctions.ts
--   Compile/Parser     packages/sqrl/src/compile/SqrlParserState.ts; Trees holds the operations that
--                      transform trees, Kept is what no operation takes back, Commands and Globals
--                      show it of each, Share is about clauses that share a slot, and
--                      Helpers is the constructor and what compilers of functions call
--   Compile/Labeler    packages/sqrl/src/compile/compileLabelerStatements.ts and compileWhenBlock.ts;
--                      Pushing is pushStatement and the loop of SqrlCompile.ts, Keeps what it
--                      keeps, and Deeper is about the depth of its calls
--   Compile/Transform  packages/sqrl/src/ast/SqrlAstTransformer.ts, with CompileState and ConstantSlot of
--                      packages/sqrl/src/api/parse.ts; Answers and Keeps show that it keeps the slots
--   Execute            packages/sqrl/src/execute/SqrlExecutionState.ts and SqrlExecutable.ts; Running
--                      is its loops as steps, Sound and its children the invariant, Ends why they end
--   Compile            packages/sqrl/src/ast/AstExpr.ts, api/expr.ts and expr/Expr.ts: Fold builds one
--                      node (Fold/Meaning is what expressions mean), Translate goes from a tree to an
--                      expression, and Extract moves loads to where they are first needed
--   Compile/Cost       the costs of slots in packages/sqrl/src/compile/SqrlCompiledOutput.ts; Reach is
--                      which slots a slot loads, Table what is known between visits, Visit the loops
--   Semaphore          packages/sqrl/src/jslib/Semaphore.ts; System is withLock's use of it, as steps
--   Redis/RateLimit    packages/sqrl-redis-functions/src/lua/rateLimitFetchLua.ts
--   Redis/Count        packages/sqrl-redis-functions/src/services/RedisCountService.ts, BucketedKeys.ts
--   Redis/Mock         packages/sqrl-redis-functions/src/mocks/MockRedisService.ts, its texts and lists
--   Redis/Label        packages/sqrl-redis-functions/src/services/RedisLabelService.ts
--   Redis/CountUnique  packages/sqrl-redis-functions/src/services/RedisCountUnique.ts
--   Redis/UniqueId     packages/sqrl-redis-functions/src/services/RedisUniqueId.ts
--   Stdlib/Logic       packages/sqrl/src/function/BoolFunctions.ts
--
-- How code is read. An exception is an error value of `Result`, `invalid` where the script is at
-- fault and `failed` for a broken invariant; messages keep their format string. An object that is
-- changed in place (the row of truth values, a semaphore) is passed on from call to call. Promises
-- are delivered in any order: a run is the list of results, or of the steps of a system, in the order
-- in which they happen. Numbers of tokens and times are non-negative integers, and a refill time is
-- positive where a division by it is used; the count of a semaphore is an integer. recurseSlot runs on
-- fuel, which is the depth of its calls; more than the rank of a slot is enough. pushStatement runs on
-- fuel as well, which is the depth at which statements push statements, and so does the
-- transformer of trees, whose fuel is the depth of the call stack: without enough of it both end in an
-- error, as the source does. Every other loop is a
-- recursion on the list or the tree that it walks. Names are
-- sorted by code points, which is JavaScript's order for names of features.
--
-- Parameters stand for what the compiler calls and is not modelled: the registry of functions,
-- the importer of files, and the third-party hash and stringify of JSON. The transforms that functions
-- bring to SqrlAstTransformer are runs of requests to CompileState; what holds of any transformer takes
-- it as a parameter. Slots refer to each other by their names.
--
-- Not modelled: the generated parsers, the text of the JavaScript that
-- is generated, the registry of functions, the compilers of the redis functions, the functions of the
-- standard library beside the logic ones, objects such as entities and dates, the redis services beside
-- the rate limit, the counts, the exact unique counts, the labels and the unique ids, the command line
-- tools and the web server; of an execution, when a promise is resolved, the clock and the log; of the
-- redis in memory, its counters and its approximate sets.
pub mod Prelude
pub mod Value
pub mod Ast
pub mod Where
pub mod Semaphore
pub mod Redis
pub mod Stdlib
pub mod Slots
pub mod Compile
pub mod Execute
