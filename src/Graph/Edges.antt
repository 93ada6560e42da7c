-- ===== src/Graph/Edges.antt =====
-- src/graph.c: the edges of the graph are the joins of the query.
use mathlib.Core.Path.{subst}
use native.Mathlib.Decide.{ℕ_discrete}
use mathlib.Core.Bool.{not}
use join_operator_software_d.Prelude.{
  Option, none, some, ◌&&◌, ◌≢◌, All, ℕ, zero, suc, ◌+◌, ◌<◌, ◌≡◌, refl, sym, ap, ◌∙◌, arith, List,
  [], ◌∷◌, ◌++◌, append-nil, append_assoc, if◌then◌else◌, ◌==◌, ==_iff, true, ==_eq_false, inl, inr,
  Bool-cases, length, length-append, length-set, get_or, get_or-append, get_or-append_left,
  get_or-set_self, get_or-set_ne, store-append, set,
}
use join_operator_software_d.Query.{Join}
use join_operator_software_d.Graph.{
  Edge, Vertex, no_vertex, initialise_loop, initialise_graph, append_edge, insert_graph,
  is_filter_join, construct_loop, construct_graph, find_edge, connected,
}

-- The joins that start at a relation, as edges, in the order of the query, without those of two
-- different columns of the relation itself.
abbrev pub edges_of : ℕ → ℕ → List Join → List Edge
edges_of rel i [] = []
edges_of rel i (join ∷ joins) =
    let rest = edges_of rel (i + 1) joins in
    if join.participant1.rel == join.participant2.rel
      && not (join.participant1.num_col == join.participant2.num_col)
    then rest
    else if join.participant1.rel == rel
    then record {
      parent_col = join.participant1.num_col;
      node_col = join.participant2.num_col;
      node = join.participant2.rel;
      join_id = i;
    }
      ∷ rest
    else rest

append_edge-append : (es : List Edge) (new : Edge) → append_edge es new ≡ es ++ new ∷ []
append_edge-append [] new = refl
append_edge-append (e ∷ es) new = ap (λ (r : List Edge). e ∷ r) (append_edge-append es new)

-- What an insertion makes of a vertex whose edges are counted.
insert_graph-append :
    (v : Vertex) (es : List Edge) (pc rel nc i : ℕ)
    → v.edges ≡ es
    → v.num_edges ≡ length es
    → insert_graph v pc rel nc i ≡ record v {
      num_edges = v.num_edges + 1;
      edges = es ++ record { parent_col = pc; node_col = nc; node = rel; join_id = i } ∷ [];
    }
insert_graph-append v [] pc rel nc i e h = rw (e, h) refl
insert_graph-append v (d ∷ es) pc rel nc i e h =
    rw
      (
        e,
        append_edge-append es (record { parent_col = pc; node_col = nc; node = rel; join_id = i }),
      )
      refl

-- A vertex has the edges and their number.
pub record HasEdges (v : Vertex) (es : List Edge) : Type 0 where
  pub edges_are : v.edges ≡ es
  pub counted : v.num_edges ≡ length es

insert_graph-HasEdges :
    (v : Vertex) (es : List Edge) (new : Edge)
    → HasEdges v es
    → HasEdges (insert_graph v new.parent_col new.node new.node_col new.join_id) (es ++ new ∷ [])
insert_graph-HasEdges v es new h =
    rw
      (insert_graph-append v es new.parent_col new.node new.node_col new.join_id h.edges_are
        h.counted)
      (record {
        edges_are = refl;
        counted = omega (arith, h.counted, length-append {0} es (new ∷ []));
      })

construct_loop-HasEdges :
    (joins : List Join) (i : ℕ) (vs : List Vertex) (rel : ℕ) (es : List Edge)
    → rel < length vs
    → HasEdges (get_or vs rel no_vertex) es
    → HasEdges (get_or (construct_loop joins i vs) rel no_vertex) (es ++ edges_of rel i joins)
unfolding construct_loop
construct_loop-HasEdges [] i vs rel es lt h = rw append-nil h
construct_loop-HasEdges (join ∷ joins) i vs rel es lt h = elim (Bool-cases (is_filter_join join)) [
  | inl f ↦ rw f (construct_loop-HasEdges joins (i + 1) vs rel es lt h)
  | inr f ↦
      let rel1 = join.participant1.rel in
      let new : Edge = record {
        parent_col = join.participant1.num_col;
        node_col = join.participant2.num_col;
        node = join.participant2.rel;
        join_id = i;
      } in
      let v = insert_graph (get_or vs rel1 no_vertex) new.parent_col new.node new.node_col i in
      elim (ℕ_discrete rel1 rel) [
        | yes e ↦
            let same : (rel1 == rel) ≡ true = (==_iff rel1 rel).1 e in
            let inside : rel1 < length vs = omega (arith, e, lt) in
            let here : get_or (set vs rel1 v) rel no_vertex ≡ v =
              ap (λ (m : ℕ). get_or (set vs rel1 v) m no_vertex) (sym e)
              ∙ get_or-set_self vs rel1 v no_vertex inside in
            let old = subst (λ (m : ℕ). HasEdges (get_or vs m no_vertex) es) (sym e) h in
            rw (f, same)
              (subst
                (HasEdges (get_or (construct_loop joins (i + 1) (set vs rel1 v)) rel no_vertex))
                (append_assoc es (new ∷ []) (edges_of rel (i + 1) joins))
                (construct_loop-HasEdges joins (i + 1) (set vs rel1 v) rel (es ++ new ∷ [])
                  (omega (arith, lt, length-set vs rel1 v))
                  (subst (λ (w : Vertex). HasEdges w (es ++ new ∷ [])) (sym here)
                    (insert_graph-HasEdges (get_or vs rel1 no_vertex) es new old))))
        | no ne ↦
            rw (f, ==_eq_false rel1 rel ne)
              (construct_loop-HasEdges joins (i + 1) (set vs rel1 v) rel es
                (omega (arith, lt, length-set vs rel1 v))
                (subst (λ (w : Vertex). HasEdges w es)
                  (sym (get_or-set_ne vs rel1 rel v no_vertex ne)) h))
      ]
]

-- The vertex `k` of a new graph.
fresh : ℕ → Vertex
fresh k = record { vertex_id = k; num_edges = 0; edges = [] }

fresh_append :
    (vs : List Vertex) (i : ℕ)
    → length vs ≡ i
    → ((k : ℕ) → k < i → get_or vs k no_vertex ≡ fresh k)
    → (k : ℕ) → k < i + 1
    → get_or (vs ++ fresh i ∷ []) k no_vertex ≡ fresh k
fresh_append vs i h f k lt = elim (ℕ_discrete k i) [
  | yes e ↦
      ap (λ (m : ℕ). get_or (vs ++ fresh i ∷ []) m no_vertex) (e ∙ sym h)
      ∙ get_or-append vs (fresh i) [] no_vertex
      ∙ ap fresh (sym e)
  | no ne ↦
      get_or-append_left vs (fresh i ∷ []) k no_vertex (omega (arith, h, lt, ne))
      ∙ f k (omega (arith, lt, ne))
]

initialise_loop-fresh :
    (n i : ℕ) (vs : List Vertex)
    → length vs ≡ i
    → ((k : ℕ) → k < i → get_or vs k no_vertex ≡ fresh k)
    → (length (initialise_loop n i vs) ≡ i + n)
      × ((k : ℕ) → k < i + n → get_or (initialise_loop n i vs) k no_vertex ≡ fresh k)
unfolding fresh
initialise_loop-fresh zero i vs h f = (omega (arith, h), λ k lt. f k (omega (arith, lt)))
initialise_loop-fresh (suc n) i vs h f =
    let more = vs ++ fresh i ∷ [] in
    let grown : length more ≡ i + 1 = omega (arith, h, length-append {0} vs (fresh i ∷ [])) in
    let rest = initialise_loop-fresh n (i + 1) more grown (fresh_append vs i h f) in
    rw (store-append vs i (fresh i) (sym h))
      (omega (arith, rest.0), λ k lt. rest.1 k (omega (arith, lt)))

-- The first of the edges that leads to a vertex, if one does.
abbrev pub LeadsTo : List Edge → ℕ → Option Edge → Type 0
LeadsTo es other none = All (λ (e : Edge). e.node ≢ other) es
LeadsTo es other (some e) =
    (before : List Edge) × (after : List Edge) × (es ≡ before ++ e ∷ after)
    × All (λ (d : Edge). d.node ≢ other) before
    × (e.node ≡ other)

LeadsTo-later :
    (d : Edge) (es : List Edge) (other : ℕ) (found : Option Edge)
    → d.node ≢ other
    → LeadsTo es other found
    → LeadsTo (d ∷ es) other found
LeadsTo-later d es other none ne all = (ne, all)
LeadsTo-later d es other (some e) ne (before, after, eq, all, to) =
    (d ∷ before, after, ap (λ (r : List Edge). d ∷ r) eq, (ne, all), to)

find_edge-LeadsTo : (es : List Edge) (other : ℕ) → LeadsTo es other (find_edge es other)
find_edge-LeadsTo [] other = tt
find_edge-LeadsTo (e ∷ es) other = elim (ℕ_discrete e.node other) [
  | yes to ↦ rw ((==_iff e.node other).1 to) ([], es, refl, tt, to)
  | no ne ↦
      rw (==_eq_false e.node other ne)
        (LeadsTo-later e es other (find_edge es other) ne (find_edge-LeadsTo es other))
]

-- The edges of a relation of the query in its join graph are the joins that start at it, each with
-- its number, in the order of the query and without the joins of two different columns of one
-- relation, and they are counted; two relations are connected by the first such join that leads to
-- the other, and not at all when none does.
pub construct_graph-edges_of :
    (rels : ℕ) (joins : List Join) (rel : ℕ)
    → rel < rels
    → let g = construct_graph (initialise_graph rels) joins in
      let es = edges_of rel 0 joins in
      HasEdges (get_or g.graph_array rel no_vertex) es
      × ((other : ℕ) → LeadsTo es other (connected g rel other))
unfolding construct_graph initialise_graph connected
construct_graph-edges_of rels joins rel lt =
    let start = initialise_loop-fresh rels 0 [] refl (λ k k_lt. absurd (omega (arith, k_lt))) in
    let first = start.1 rel (omega (arith, lt)) in
    let has =
      construct_loop-HasEdges joins 0 (initialise_loop rels 0 []) rel []
        (omega (arith, lt, start.0))
        (subst (λ (w : Vertex). HasEdges w []) (sym first)
          (unfold fresh in record { edges_are = refl; counted = refl })) in
    let es = edges_of rel 0 joins in
    (
      has,
      λ other.
          subst (λ (ds : List Edge). LeadsTo es other (find_edge ds other)) (sym has.edges_are)
            (find_edge-LeadsTo es other),
    )
