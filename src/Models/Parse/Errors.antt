-- ===== src/Models/Parse/Errors.antt =====
-- With which exceptions `parse` ends.
use lambpie.Common.{◌≡◌, ◌≢◌, sym, ◌∙◌, String, Bool, true, Option, none, some, List, map, ap}
use mathlib.Core.Path.{subst}
use lambpie.Common.Dict.{Dict, lookup}
use lambpie.Models.Shapes.{
  reached, undefined_shape, unknown_operation, no_fuel, mem, Outcome, collect_reachable_shapes,
}
use lambpie.Models.Collect.{Collected, collect_reachable_shapes-Collected}
use lambpie.Models.Sorting.{sorted_set, mem-sorted_set}
use lambpie.Models.Service.{
  Failure, ok, fail, MemberInfo, ShapeInfo, structure_info, ServiceModel, OperationInfo, shapes_of,
  shape_of,
}
use lambpie.Models.Parse.{parse_shapes, parse, present_or_fail, reachable_or_fail, outline}
use lambpie.Models.Parse.Entries.{shapes_of-none, shapes_of-some, shape_names, ok_path}
use lambpie.Models.Parse.Skips.{failed}
use lambpie.Models.Needs.{Needs, AreKnown}
use lambpie.Models.Closed.{IsResolved, resolve_pie_type-IsResolved}
use lambpie.Models.Parse.Classes.{was_reached}
use lambpie.Models.Parse.Failing.{
  IsPossible, Fails, bind-Fails, Resolves, parse_names-Fails, present-Fails, metadata-Fails,
}

module _ (U K : Type 0) where
  module _ (names : Option (List String)) (ops : Dict OperationInfo) (shapes : Dict ShapeInfo)
      (skip : Bool) where
    collect-Fails :
        (o : Outcome)
        → ((x : String)
            → Needs (outline ops shapes) names x
            → lookup x (shapes_of shapes) ≡ none
            → U)
        → (¬ AreKnown names (outline ops shapes).operations → K)
        → Collected (outline ops shapes) names o
        → Fails U K skip (reachable_or_fail o)
    unfolding reachable_or_fail
    collect-Fails (reached r) u k c = tt
    collect-Fails (undefined_shape x) u k (known, needs, there) = u x needs there
    collect-Fails unknown_operation u k c = k c
    collect-Fails no_fuel u k c = absurd c

    all_resolve :
        (r : List String)
        → collect_reachable_shapes (outline ops shapes) names ≡ reached r
        → (x : String) (members : Dict MemberInfo) (required : List String)
        → mem x (sorted_set r) ≡ true
        → lookup x shapes ≡ some (structure_info members required)
        → Resolves U K skip shapes members
    unfolding shape_of
    all_resolve r c x members required m l y h e = subst (IsResolved (shapes_of shapes) r y) e (
        resolve_pie_type-IsResolved (outline ops shapes) names r x y (shape_names members) c
          (sym (mem-sorted_set x r) ∙ m) (shapes_of-some x shapes _ l) h)

    all_there :
        (r : List String)
        → Collected (outline ops shapes) names (reached r)
        → (x : String) → mem x (sorted_set r) ≡ true
        → lookup x shapes ≢ none
    all_there r (known, needs, there) x m l =
        there x (sym (mem-sorted_set x r) ∙ m) (shapes_of-none x shapes l)

-- A shape that the selected operations need is not in the model.
abbrev pub IsMissingShape : ServiceModel → Option (List String) → Type 0
IsMissingShape model names =
    (ops : Dict OperationInfo) × ((shapes : Dict ShapeInfo) × ((model.operations ≡ some ops)
        × ((model.shapes ≡ some shapes)
            × ((x : String) × (Needs (outline ops shapes) names x
                  × (lookup x (shapes_of shapes) ≡ none))))))

-- An operation that was asked for is not in the model.
abbrev pub IsUnknownOperation : ServiceModel → Option (List String) → Type 0
IsUnknownOperation model names =
    (ops : Dict OperationInfo) × ((model.operations ≡ some ops)
      × ¬ AreKnown names (map (λ o. (o.0, o.1.shapes)) ops))

was_present : {A : Type 0} (o : Option A) (a : A) → present_or_fail o ≡ ok a → o ≡ some a
unfolding present_or_fail
was_present none a e = absurd (failed e)
was_present (some b) a e = ap some (ok_path e)

-- However `parse` fails, it is not by a KeyError for a shape, nor by the end of the fuel; with
-- `skip_unsupported` it is not by NotImplementedError; it is by the RuntimeError for a shape only
-- where one that the selected operations need is missing, and by the exit only where an operation
-- that was asked for is.
pub parse-Fails :
    (model : ServiceModel) (names : Option (List String)) (skip : Bool) (e : Failure)
    → parse model names skip ≡ fail e
    → IsPossible (IsMissingShape model names) (IsUnknownOperation model names) skip e
unfolding parse parse_shapes
parse-Fails model names skip e h =
    let U = IsMissingShape model names in
    let K = IsUnknownOperation model names in
    subst (Fails U K skip) h (
      bind-Fails U K skip _ _ (present-Fails U K skip model.metadata) λ meta _.
        bind-Fails U K skip _ _ (present-Fails U K skip model.operations) λ ops eo.
          bind-Fails U K skip _ _ (present-Fails U K skip model.shapes) λ shapes es.
            let po = was_present model.operations ops eo in
            let ps = was_present model.shapes shapes es in
            let collected = collect_reachable_shapes-Collected (outline ops shapes) names in
            bind-Fails U K skip _ _
              (collect-Fails U K names ops shapes skip _
                (λ x n l. (ops, (shapes, (po, (ps, (x, (n, l))))))) (λ n. (ops, (po, n))) collected)
              λ r c. bind-Fails U K skip _ _ (metadata-Fails U K skip meta) λ service _.
                bind-Fails U K skip _ _
                  (parse_names-Fails U K skip shapes (sorted_set r)
                    (all_there U K names ops shapes skip r
                      (subst (Collected (outline ops shapes) names) (was_reached _ r c) collected))
                    (all_resolve U K names ops shapes skip r (was_reached _ r c)))
                  λ defs _. tt)
