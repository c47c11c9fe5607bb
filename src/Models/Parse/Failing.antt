-- ===== src/Models/Parse/Failing.antt =====
-- With which exceptions the steps of `parse` end.
use lambpie.Common.{
  ◌≡◌, ◌≢◌, refl, String, Bool, true, false, Option, none, some, List, [], ◌∷◌, if◌then◌else◌, inl,
  inr,
}
use lambpie.Common.Dict.{Dict, lookup}
use lambpie.Models.Shapes.{mem}
use lambpie.Models.Members.{in_front, behind}
use lambpie.Models.Types.{
  Resolved, pie_type, type_error, not_implemented, runtime_error, resolve_pie_type,
}
use lambpie.Models.Service.{
  Failure, unsupported, unknown_type, missing_key, out_of_fuel, Checked, ok, fail, ◌>>=◌,
  MemberInfo, ShapeInfo, structure_info, list_info, map_info, scalar_info, ServiceMetadata,
  FieldInfo, ShapeDef, undefined, unknown, shapes_of,
}
use lambpie.Models.Parse.{
  keep_member, parse_members, parse_structure_shape, keep_scalar, keep_shape, parse_names,
  present_or_fail, parse_service_metadata, protocol_of, first_protocol, is_true,
}
use lambpie.Models.Parse.Entries.{shape_names}
use lambpie.Models.Needs.{HasMember}

-- The failures that are possible, and where: the KeyError of a shape that is not there and the end
-- of the fuel are not.
abbrev pub IsPossible : Type 0 → Type 0 → Bool → Failure → Type 0
IsPossible U K skip unsupported = skip ≡ false
IsPossible U K skip missing_key = ⊥
IsPossible U K skip out_of_fuel = ⊥
IsPossible U K skip undefined = U
IsPossible U K skip unknown = K
IsPossible U K skip _ = Unit

module _ (U K : Type 0) where
  abbrev pub Fails : {A : Type 0} → Bool → Checked A → Type 0
  Fails skip (ok a) = Unit
  Fails skip (fail e) = IsPossible U K skip e

  pub bind-Fails :
      {A B : Type 0} (skip : Bool) (m : Checked A) (f : A → Checked B)
      → Fails skip m
      → ((a : A) → m ≡ ok a → Fails skip (f a))
      → Fails skip (m >>= f)
  unfolding ◌>>=◌
  bind-Fails skip (ok a) f h k = k a refl
  bind-Fails skip (fail e) f h k = h

  skip-Fails :
      {A : Type 0} (skip : Bool) (e : Failure) (rest : Checked A)
      → Fails skip rest
      → (skip ≡ false → IsPossible U K skip e)
      → Fails skip (if skip then rest else fail e)
  skip-Fails true e rest h k = h
  skip-Fails false e rest h k = k refl

  module _ (skip : Bool) (shapes : Dict ShapeInfo) where
    keep_member-Fails :
        (required : List String) (m : String × MemberInfo) (r : Resolved)
        (rest : Checked (Dict FieldInfo))
        → r ≢ runtime_error
        → Fails skip rest
        → Fails skip (keep_member skip shapes required m r rest)
    unfolding keep_member
    keep_member-Fails required m (pie_type t) rest n h = bind-Fails skip rest _ h λ a e. tt
    keep_member-Fails required m not_implemented rest n h =
        skip-Fails skip unsupported rest h λ e. e
    keep_member-Fails required m type_error rest n h = tt
    keep_member-Fails required m runtime_error rest n h = absurd (n refl)

    -- the shapes of the members are there
    abbrev pub Resolves : Dict MemberInfo → Type 0
    Resolves members =
        (y : String)
        → HasMember (shape_names members) y
        → resolve_pie_type y (shapes_of shapes) ≢ runtime_error

    parse_members-Fails :
        (required : List String) (members : Dict MemberInfo)
        → Resolves members
        → Fails skip (parse_members skip shapes required members)
    unfolding parse_members
    parse_members-Fails required [] k = tt
    parse_members-Fails required (m ∷ members) k =
        keep_member-Fails required m _ _ (k m.1.shape (inl refl))
          (parse_members-Fails required members λ y h. k y (inr h))

    keep_scalar-Fails :
        (n : String) (r : Resolved) (rest : Checked (Dict ShapeDef))
        → Fails skip rest
        → Fails skip (keep_scalar skip shapes n r rest)
    unfolding keep_scalar
    keep_scalar-Fails n (pie_type t) rest h = bind-Fails skip rest _ h λ a e. tt
    keep_scalar-Fails n not_implemented rest h = skip-Fails skip unknown_type rest h λ e. tt
    keep_scalar-Fails n type_error rest h = skip-Fails skip unknown_type rest h λ e. tt
    keep_scalar-Fails n runtime_error rest h = skip-Fails skip unknown_type rest h λ e. tt

    keep_shape-Fails :
        (n : String) (o : Option ShapeInfo) (rest : Checked (Dict ShapeDef))
        → o ≢ none
        → ((members : Dict MemberInfo) (required : List String)
            → o ≡ some (structure_info members required)
            → Resolves members)
        → Fails skip rest
        → Fails skip (keep_shape skip shapes n o rest)
    unfolding keep_shape parse_structure_shape
    keep_shape-Fails n none rest d k h = absurd (d refl)
    keep_shape-Fails n (some (structure_info members required)) rest d k h =
        bind-Fails skip _ _
          (bind-Fails skip _ _ (parse_members-Fails required members (k members required refl))
            λ f e. tt)
          λ entry e. bind-Fails skip rest _ h λ defs e'. tt
    keep_shape-Fails n (some (list_info m)) rest d k h = skip-Fails skip unsupported rest h λ e. e
    keep_shape-Fails n (some (map_info a b)) rest d k h = skip-Fails skip unsupported rest h λ e. e
    keep_shape-Fails n (some (scalar_info t)) rest d k h = keep_scalar-Fails n _ rest h

    pub parse_names-Fails :
        (ns : List String)
        → ((x : String) → mem x ns ≡ true → lookup x shapes ≢ none)
        → ((x : String) (members : Dict MemberInfo) (required : List String)
            → mem x ns ≡ true
            → lookup x shapes ≡ some (structure_info members required)
            → Resolves members)
        → Fails skip (parse_names skip shapes ns)
    unfolding parse_names
    parse_names-Fails [] d k = tt
    parse_names-Fails (n ∷ ns) d k =
        keep_shape-Fails n _ _ (d n (in_front n n ns refl))
          (λ members required e. k n members required (in_front n n ns refl) e)
          (parse_names-Fails ns (λ x m. d x (behind x n ns m))
            λ x members required m e. k x members required (behind x n ns m) e)

  pub present-Fails : {A : Type 0} (skip : Bool) (o : Option A) → Fails skip (present_or_fail o)
  unfolding present_or_fail
  present-Fails skip none = tt
  present-Fails skip (some a) = tt

  first_protocol-Fails :
      (skip : Bool) (o : Option (List (Option String))) → Fails skip (first_protocol o)
  unfolding first_protocol
  first_protocol-Fails skip none = tt
  first_protocol-Fails skip (some []) = tt
  first_protocol-Fails skip (some (p ∷ ps)) = tt

  protocol-Fails :
      (skip b : Bool) (t : String) (m : Checked String)
      → Fails skip m
      → Fails skip (if b then ok t else m)
  protocol-Fails skip true t m h = tt
  protocol-Fails skip false t m h = h

  pub metadata-Fails :
      (skip : Bool) (meta : ServiceMetadata) → Fails skip (parse_service_metadata meta)
  unfolding parse_service_metadata protocol_of
  metadata-Fails skip meta =
      bind-Fails skip _ _
        (protocol-Fails skip (is_true meta.protocol) _ _ (first_protocol-Fails skip meta.protocols))
        λ p e. tt
