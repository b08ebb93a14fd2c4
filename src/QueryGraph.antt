-- ===== src/QueryGraph.antt =====
-- The query graph (query-engine/core/src/query_graph): nodes and edges whose contents can be taken
-- out, over the graph of the crate petgraph. A query and the closure of a `ParentIds` edge are not
-- looked into; a closure of an `If` node is a function on the unit type. What a panic gives is
-- `panic`, and a function that changes the graph gives it with its result.
pub mod Inner
pub mod Edges
pub mod Walks
pub mod Swap
pub mod Decisions
pub mod Ancestors
pub mod Results
pub mod Direct
pub mod Rules
pub mod Kept
pub mod Built
mod Tests
mod InterpreterTests
pub mod Interpreter
pub mod Scopes
pub mod Split
pub mod Transformers
pub mod Expressionista
pub mod Runs
pub mod Deferred
pub mod Partition
use Prim.Native.String.{◌++◌}
use prisma_engine.Base.{
  ℕ, zero, suc, String, Bool, Option, none, some, List, [], ◌∷◌, get_elem?, unwrap_or, ltb, decimal,
  if◌then◌else◌, Outcome, ok, err, panic,
}
use prisma_engine.QueryGraph.Inner.{Petgraph}

pub record Guard (T : Type 0) : Type 0 where
  pub content : Option T

abbrev pub guard : {T : Type 0} → T → Guard T
guard content = record { content = some content }

-- The content, and the guard without it.
unfoldable pub unset : {E T : Type 0} → Guard T → Outcome E T × Guard T
unset g = elim g.content [
  | some c ↦ (ok c, record { content = none })
  | none ↦ (panic, record { content = none })
]

pub data Flow : Type 0 where
  if_flow : (Unit {0} → Bool) → Flow
  empty : Flow

pub data Node (Query : Type 0) : Type 0 where
  query : Query → Node Query
  flow : Flow → Node Query

pub data QueryGraphDependency (ParentIdsFn : Type 0) : Type 0 where
  execution_order : QueryGraphDependency ParentIdsFn
  parent_ids : ParentIdsFn → QueryGraphDependency ParentIdsFn
  then_edge else_edge : QueryGraphDependency ParentIdsFn

pub data QueryGraphError : Type 0 where
  invariance_violation : String → QueryGraphError
  invalid_node_transformation : (from to : String) → QueryGraphError

unfoldable pub dependency_text : {F : Type 0} → QueryGraphDependency F → String
dependency_text execution_order = "ExecutionOrder"
dependency_text (parent_ids f) = "ParentIds"
dependency_text then_edge = "Then"
dependency_text else_edge = "Else"

unfoldable pub flow_text : Flow → String
flow_text (if_flow c) = "(If (condition func)"
flow_text empty = "Empty"

unfoldable pub node_text : {Q : Type 0} → (Q → String) → Node Q → String
node_text query_text (query q) = query_text q
node_text query_text (flow f) = flow_text f

-- `TryFrom<Node>` for `Query` and for `Flow`.
unfoldable pub query_try_from : {Q : Type 0} → (Q → String) → Node Q → Outcome QueryGraphError Q
query_try_from query_text (query q) = ok q
query_try_from query_text (flow f) =
    err (invalid_node_transformation (node_text query_text (flow f)) "Query")

unfoldable pub flow_try_from : {Q : Type 0} → (Q → String) → Node Q → Outcome QueryGraphError Flow
flow_try_from query_text (query q) =
    err (invalid_node_transformation (node_text query_text (query q)) "Flow")
flow_try_from query_text (flow f) = ok f

-- `NodeRef::id` and `EdgeRef::id`.
unfoldable pub id : ℕ → String
id n = decimal n

module _ {Query ParentIdsFn : Type 0}
    (P : Petgraph (Guard (Node Query)) (Guard (QueryGraphDependency ParentIdsFn))) where
  pub record QueryGraph : Type 0 where
    pub graph : P.Graph
    pub result_nodes : List ℕ
    pub marked_node_pairs : List (ℕ × ℕ)
    pub finalized : Bool
    pub needs_transaction : Bool
