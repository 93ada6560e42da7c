-- ===== src/Graph.antt =====
-- src/graph.c, src/graph.h: the join graph of a query. The edges of a vertex, a linked list in the
-- source, are the list from `firstEdge` on.
pub mod Edges
use mathlib.Core.Bool.{not}
use join_operator_software_d.Prelude.{
  ℕ, zero, suc, ◌+◌, ◌&&◌, Bool, Option, none, some, List, [], ◌∷◌, ◌++◌, if◌then◌else◌, ◌==◌,
  get_or, set, store,
}
use join_operator_software_d.Query.{Join}

pub record Edge : Type 0 where
  pub parent_col : ℕ
  pub node_col : ℕ
  pub node : ℕ
  pub join_id : ℕ

pub record Vertex : Type 0 where
  pub vertex_id : ℕ
  pub num_edges : ℕ
  pub edges : List Edge

pub record Graph : Type 0 where
  pub graph_array : List Vertex
  pub num_vertices : ℕ

-- A vertex outside the graph.
abbrev pub no_vertex : Vertex
no_vertex = record { vertex_id = 0; num_edges = 0; edges = [] }

abbrev pub initialise_loop : ℕ → ℕ → List Vertex → List Vertex
initialise_loop zero i vertices = vertices
initialise_loop (suc n) i vertices =
    initialise_loop n (i + 1)
      (store vertices i (record { vertex_id = i; num_edges = 0; edges = [] }))

unfoldable pub initialise_graph : ℕ → Graph
initialise_graph rels = record { graph_array = initialise_loop rels 0 []; num_vertices = rels }

-- The walk to the last edge, and the new edge behind it.
abbrev pub append_edge : List Edge → Edge → List Edge
append_edge [] new = new ∷ []
append_edge (e ∷ es) new = e ∷ append_edge es new

abbrev pub insert_graph : Vertex → ℕ → ℕ → ℕ → ℕ → Vertex
insert_graph parent parent_col edge_rel edge_col join_id =
    let new : Edge = record {
      parent_col = parent_col;
      node_col = edge_col;
      node = edge_rel;
      join_id = join_id;
    } in
    elim parent.edges [
      | [] ↦ record parent { num_edges = 1; edges = new ∷ [] }
      | e ∷ es ↦ record parent {
        num_edges = parent.num_edges + 1;
        edges = append_edge (e ∷ es) new;
      }
    ]

-- A join of two columns of one relation is no edge.
abbrev pub is_filter_join : Join → Bool
is_filter_join join =
    join.participant1.rel == join.participant2.rel
    && not (join.participant1.num_col == join.participant2.num_col)

-- The loop over the joins, from number `i` on.
unfoldable pub construct_loop : List Join → ℕ → List Vertex → List Vertex
construct_loop [] i vertices = vertices
construct_loop (join ∷ joins) i vertices =
    let rel1 = join.participant1.rel in
    construct_loop joins (i + 1) (
      if is_filter_join join
      then vertices
      else set vertices rel1 (
          insert_graph (get_or vertices rel1 no_vertex) join.participant1.num_col
            join.participant2.rel join.participant2.num_col i))

unfoldable pub construct_graph : Graph → List Join → Graph
construct_graph graph joins = record graph {
  graph_array = construct_loop joins 0 graph.graph_array;
}

-- The loop over the edges of a vertex: the first edge to `vertex2`.
abbrev pub find_edge : List Edge → ℕ → Option Edge
find_edge [] vertex2 = none
find_edge (e ∷ es) vertex2 =
    let rest = find_edge es vertex2 in if e.node == vertex2 then some e else rest

-- The columns and the join of the edge that is found, which the source stores through pointers;
-- `none` is the result 0.
unfoldable pub connected : Graph → ℕ → ℕ → Option Edge
connected graph vertex1 vertex2 =
    find_edge (get_or graph.graph_array vertex1 no_vertex).edges vertex2
