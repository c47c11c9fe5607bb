-- ===== src/Models/Tests.antt =====
-- A model with a cycle, a shape that nothing refers to, and an operation that is not selected.
use lambpie.Common.{refl, ◌≡◌, none, some, [], ◌∷◌, inl, inr}
use lambpie.Models.Shapes.{
  structure, list_of, scalar, Model, reached, mem, refs, and_then, each, visit_shape, walk, roots,
  select, all_known, known, collect_reachable_shapes,
}
use lambpie.Models.Types.{not_implemented, shape_type, resolve_pie_type}
use lambpie.Models.Closed.{IsResolved, resolve_pie_type-IsResolved}
use lambpie.Common.Dict.{lookup, contains}
use lambpie.Models.Collect.{Collected, collect_reachable_shapes-Collected}

abbrev tree : Model
tree = record {
  operations =
      ("Get", record { input = some "Node"; output = none; errors = [] })
      ∷ ("Put", record { input = some "Unused"; output = none; errors = "Missing" ∷ [] })
      ∷ [];
  shapes =
      ("Unused", structure [])
      ∷ ("Node", structure (("label", "Text") ∷ ("children", "Nodes") ∷ []))
      ∷ ("Nodes", list_of "Node")
      ∷ ("Text", scalar "string")
      ∷ [];
}

reached_from_Get :
    collect_reachable_shapes tree (some ("Get" ∷ [])) ≡ reached ("Nodes" ∷ "Text" ∷ "Node" ∷ [])
unfolding mem refs and_then each visit_shape walk roots select all_known known
    collect_reachable_shapes lookup contains
reached_from_Get = refl

collect_reachable_shapes-Collected_example :
    Collected tree (some ("Get" ∷ [])) (reached ("Nodes" ∷ "Text" ∷ "Node" ∷ []))
unfolding mem refs and_then each visit_shape walk roots select all_known known
    collect_reachable_shapes lookup contains
collect_reachable_shapes-Collected_example =
    collect_reachable_shapes-Collected tree (some ("Get" ∷ []))

-- the member `children` of `Node` is a list, which .pie has not
resolve_pie_type-IsResolved_example :
    IsResolved tree.shapes ("Nodes" ∷ "Text" ∷ "Node" ∷ []) "Nodes" not_implemented
unfolding mem refs and_then each visit_shape walk roots select all_known known
    collect_reachable_shapes lookup contains resolve_pie_type shape_type
resolve_pie_type-IsResolved_example =
    resolve_pie_type-IsResolved tree (some ("Get" ∷ [])) ("Nodes" ∷ "Text" ∷ "Node" ∷ []) "Node"
      "Nodes" (("label", "Text") ∷ ("children", "Nodes") ∷ []) refl refl refl (inr (inl refl))
