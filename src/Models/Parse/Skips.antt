-- ===== src/Models/Parse/Skips.antt =====
-- What `--skip-unsupported` changes.
use lambpie.Common.{◌≡◌, refl, String, true, false, Option, none, some, List, [], ◌∷◌}
use lambpie.Common.Dict.{Dict}
use lambpie.Models.Types.{Resolved, pie_type, type_error, not_implemented, runtime_error}
use lambpie.Models.Service.{
  Failure, Checked, ok, fail, ◌>>=◌, MemberInfo, ShapeInfo, structure_info, list_info, map_info,
  scalar_info, ServiceModel, FieldInfo, ShapeDef, Parsed,
}
use lambpie.Models.Parse.{
  keep_member, parse_members, parse_structure_shape, keep_scalar, keep_shape, parse_names,
  parse_shapes, parse,
}

-- a chain that returned, taken apart
pub bind-ok :
    {A B : Type 0} (m : Checked A) (f : A → Checked B) (b : B)
    → (m >>= f) ≡ ok b
    → (a : A) × (m ≡ ok a) × (f a ≡ ok b)
unfolding ◌>>=◌
bind-ok (ok a) f b e = (a, refl, e)
bind-ok (fail x) f b e = cc

pub failed : {A : Type 0} {e : Failure} {a : A} → fail e ≡ ok a → ⊥
failed e = cc

-- `m` returns nothing else than `n` does
abbrev pub Agrees : {A : Type 0} → Checked A → Checked A → Type 0
Agrees {A} m n = (a : A) → m ≡ ok a → n ≡ ok a

bind-Agrees :
    {A B : Type 0} (m n : Checked A) (f g : A → Checked B)
    → Agrees m n
    → ((a : A) → Agrees (f a) (g a))
    → Agrees (m >>= f) (n >>= g)
unfolding ◌>>=◌
bind-Agrees m n f g h k = λ b e. let (a, p, q) = bind-ok m f b e in rw (h a p) (k a b q)

same : {A : Type 0} (m : Checked A) → Agrees m m
same m = λ a e. e

module _ (shapes : Dict ShapeInfo) where
  keep_member-Agrees :
      (required : List String) (m : String × MemberInfo) (r : Resolved)
      (x y : Checked (Dict FieldInfo))
      → Agrees x y
      → Agrees (keep_member false shapes required m r x) (keep_member true shapes required m r y)
  unfolding keep_member
  keep_member-Agrees required m (pie_type t) x y h = bind-Agrees x y _ _ h λ a b e. e
  keep_member-Agrees required m not_implemented x y h = λ a e. absurd (failed e)
  keep_member-Agrees required m type_error x y h = λ a e. e
  keep_member-Agrees required m runtime_error x y h = λ a e. e

  parse_members-Agrees :
      (required : List String) (members : Dict MemberInfo)
      → Agrees
          (parse_members false shapes required members)
          (parse_members true shapes required members)
  unfolding parse_members
  parse_members-Agrees required [] = same _
  parse_members-Agrees required (m ∷ members) =
      keep_member-Agrees required m _ _ _ (parse_members-Agrees required members)

  keep_scalar-Agrees :
      (name : String) (r : Resolved) (x y : Checked (Dict ShapeDef))
      → Agrees x y
      → Agrees (keep_scalar false shapes name r x) (keep_scalar true shapes name r y)
  unfolding keep_scalar
  keep_scalar-Agrees name (pie_type t) x y h = bind-Agrees x y _ _ h λ a b e. e
  keep_scalar-Agrees name not_implemented x y h = λ a e. absurd (failed e)
  keep_scalar-Agrees name type_error x y h = λ a e. absurd (failed e)
  keep_scalar-Agrees name runtime_error x y h = λ a e. absurd (failed e)

  keep_shape-Agrees :
      (name : String) (o : Option ShapeInfo) (x y : Checked (Dict ShapeDef))
      → Agrees x y
      → Agrees (keep_shape false shapes name o x) (keep_shape true shapes name o y)
  unfolding keep_shape parse_structure_shape
  keep_shape-Agrees name none x y h = same _
  keep_shape-Agrees name (some (structure_info members required)) x y h =
      bind-Agrees _ _ _ _
        (bind-Agrees _ _ _ _ (parse_members-Agrees required members) λ fields. same _)
        λ entry. bind-Agrees x y _ _ h λ defs. same _
  keep_shape-Agrees name (some (list_info member)) x y h = λ a e. absurd (failed e)
  keep_shape-Agrees name (some (map_info key value)) x y h = λ a e. absurd (failed e)
  keep_shape-Agrees name (some (scalar_info t)) x y h = keep_scalar-Agrees name _ x y h

  parse_names-Agrees :
      (ns : List String) → Agrees (parse_names false shapes ns) (parse_names true shapes ns)
  unfolding parse_names
  parse_names-Agrees [] = same _
  parse_names-Agrees (n ∷ ns) = keep_shape-Agrees n _ _ _ (parse_names-Agrees ns)

  parse_shapes-Agrees :
      (r : List String) → Agrees (parse_shapes false shapes r) (parse_shapes true shapes r)
  unfolding parse_shapes
  parse_shapes-Agrees r = parse_names-Agrees _

module _ (model : ServiceModel) (names : Option (List String)) (p : Parsed) where
  -- Where parse returns a result, it returns the same with `skip_unsupported`.
  pub parse_skipping : parse model names false ≡ ok p → parse model names true ≡ ok p
  unfolding parse
  parse_skipping =
      bind-Agrees _ _ _ _ (same _)
        (λ meta. bind-Agrees _ _ _ _ (same _) λ ops. bind-Agrees _ _ _ _ (same _) λ shapes.
          bind-Agrees _ _ _ _ (same _) λ reachable.
            bind-Agrees _ _ _ _ (same _)
              λ service. bind-Agrees _ _ _ _ (parse_shapes-Agrees shapes reachable) λ defs. same _)
        p
