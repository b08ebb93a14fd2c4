-- ===== src/Lib.antt =====
-- prisma-engine: the part that migrates a datamodel, and the graph of queries.
--
-- A schema is a syntax tree (libs/datamodel/src/ast). The migration engine compares two trees and
-- gives the steps from one to the other (the differ), applies steps to a tree (the calculator), keeps
-- the migrations in a table of the database (the persistence), and makes the steps of a database
-- migration one by one while it records the progress in that table (the applier).
--
-- Files and the code that they model:
--   Base              helpers of the other modules: searches in lists, results that may panic
--                     (Base/Fallible), the change of the first match in a list (Base/Modify)
--   Datamodel/Ast     the nodes of a tree and the lookups of SchemaAst (libs/datamodel/src/ast/*.rs); a
--                     lookup that gives a reference for writing (find_model_mut, find_enum_mut,
--                     find_field_mut) takes the change as a function. Ast/Render prints an expression
--                     (ast/renderer/mod.rs, render_value); Ast/Lookup and Ast/Tops hold the laws
--   Migration/Steps   the steps (migration-engine/connectors/migration-connector/src/steps.rs)
--   Migration/Calculator
--                     apply and apply_step with a file per kind of step
--                     (migration-engine/core/src/migration/datamodel_calculator.rs)
--   Migration/Differ  diff and the functions that push steps
--                     (migration-engine/core/src/migration/datamodel_differ.rs and its directory)
--   Migration/Persistence
--                     the records, the statuses and the queries
--                     (migration-engine/connectors/migration-connector/src/migration_persistence.rs)
--                     and the update of a row (migration-engine/connectors/sql-migration-connector/src/
--                     sql_migration_persistence.rs)
--   Migration/Applier apply, unapply and their loops (migration-engine/connectors/migration-connector/
--                     src/migration_applier.rs), and the step applier of the SQL connector
--                     (migration-engine/connectors/sql-migration-connector/src/
--                     sql_database_step_applier.rs)
--   Migration/Commands
--                     the commands that infer steps, apply a migration, roll one back and report on one,
--                     and those that apply steps to the empty datamodel or list migrations (Calculate),
--                     on an engine whose connector is a record of operations
--                     (migration-engine/core/src/commands)
--   Migration/Roundtrip
--                     the differ and the calculator together: a place for directives (Directives), for a
--                     model (Fields), at the end of a schema (Tops); what is kept of a node (Reread); the steps from the
--                     empty schema (First) and to it (Emptied)
--   QueryGraph        the query graph (query-engine/core/src/query_graph): its nodes, edges and errors;
--                     Edges has the operations and the rules for a new edge, Walks the searches, Swap the
--                     exchange of marked nodes and the end of the building. QueryGraph/Inner is the
--                     interface to the crate petgraph with its laws, Inner/Listed a graph of two lists
--                     that keeps them (Inner/Lawful). Decisions, Ancestors, Results and Direct are about
--                     the searches, Rules, Kept and Built about the rules
--   QueryGraph/Interpreter
--                     expressions, environments and their interpreter (query-engine/core/src/interpreter/
--                     expression.rs, interpreter.rs); Scopes is about it
--   QueryGraph/Expressionista
--                     the translation of a query graph to an expression (expressionista.rs beside them),
--                     with the functions of parents (Transformers) and the split of the children (Split);
--                     Runs, Deferred and Partition are about them
--   Sql/Schema        the description of a database (libs/sql-schema-describer/src/lib.rs)
--   Sql/Differ        the steps between two database schemas (migration-engine/connectors/
--                     sql-migration-connector/src/sql_schema_differ.rs, sql_migration.rs); Names, Tables,
--                     Altered, Unchanged and Ordered are about them, Steps about any list of steps
--   Sql/Inferrer      the corrections of these steps for each kind of database
--                     (sql_database_migration_inferrer.rs beside it); Delayed, Waiting, Staying,
--                     DelayedColumns, Sqlite and Inferred are about them. Columns is about what any list
--                     of steps does to the columns
--   Sql/Checker       the warnings of steps that lose data (sql_destructive_changes_checker.rs); Warned is
--                     about them
--   Migration/Samples, Migration/Tests, QueryGraph/Tests, QueryGraph/InterpreterTests,
--   Sql/Samples, Sql/Tests, Sql/InferrerTests
--                     concrete trees and histories, and the functions run on them
--
-- The state is passed explicitly: the calculator takes a tree and gives the tree that the step leaves;
-- a failure has no tree, since `apply` then drops the one that it had changed. An outcome is ok, err, or
-- panic (unwrap, assert and expect). A function of the differ that pushes onto the list of steps gives
-- the steps that it pushes. The applier has a world: the table of migrations and the database.
--
-- The commands read the table first and write at the end: ApplyMigration inserts a row and lets the
-- applier make the steps, which rewrites that row.
--
-- A function that changes the query graph gives its result with the graph after it, since an edge that
-- breaks a rule stays in the graph; a search that runs out of fuel gives panic.
--
-- Parameters: the graph type of petgraph (Petgraph, with IsLawful for what its documentation says), a
-- query and the closure of an edge of a query graph; for the interpreter, what a query does on the
-- database, its result with the ids in it, and the errors of other parts (Parts); the counts that a
-- database gives the checker; the
-- parser of expressions, which is generated from a grammar (ExpressionText); what the
-- database does with the statement of one step (run); the clock and the revision of a new
-- row; the text of an error; for the commands, what the connector infers and checks, and how a datamodel
-- is lifted, read and printed.
--
-- Fuel: the loops of the applier ask the connector whether there are more steps, so they take fuel. More
-- fuel than there are steps in the migration is enough, and is what their theorems ask for. The searches
-- of a query graph have fuel; on a graph without cycles, more fuel than the height of the node is enough.
-- The translation of a graph has fuel as well; no theorem is about the whole of it.
--
-- Not modelled: the text of SQL statements, the JSON of steps and migrations, the command line and the
-- RPC interface, the queries, their parser, their builder and their execution on a connector, the
-- introspection engine, the validation of datamodels, and the reading of a schema from the catalogue of
-- a database.
--
-- That the text of a rendered datamodel parses when the table of migrations is read is taken for granted,
-- where the source panics. The counters of a migration are native naturals without a bound, where the
-- source has usize.
mod Base
pub mod Datamodel
pub mod Migration
pub mod QueryGraph
pub mod Sql
