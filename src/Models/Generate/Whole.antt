-- ===== src/Models/Generate/Whole.antt =====
-- What generate_pie writes of a model that was parsed.
use lambpie.Common.{◌≡◌, String, true, List, [], ◌∷◌, All, concat}
use lambpie.Common.Dict.{Dict}
use lambpie.Models.Shapes.{mem}
use lambpie.Models.Service.{ShapeDef, Parsed}
use lambpie.Models.Parse.Finds.{IsClass}
use lambpie.Models.Parse.Classes.{IsClosed}
use lambpie.Models.Parse.Entries.{All-weaken}
use lambpie.Models.Generate.{
  pie_header, pie_stub_comment, structure_shapes, class_lines, all_lines, join, pie_lines,
  generate_pie,
}
use lambpie.Models.Generate.Emitted.{IsEmitted}
use lambpie.Models.Generate.Text.{IsDeclared, IsLine, classes-All}

module _ (defs : Dict ShapeDef) (comments lines : List String)
    (closed : All (λ d. IsClosed defs d.1) defs)
    (emitted : All (λ c. All (λ f. IsEmitted defs f.1.pie_type) c.1.0) (structure_shapes defs))
    (declared : (t : String) → IsEmitted defs t → IsDeclared lines t) where
  pub classes_written : All (IsLine comments lines) (all_lines class_lines (structure_shapes defs))
  classes_written = classes-All comments lines (structure_shapes defs) (
      All-weaken (structure_shapes defs)
        (λ c h. All-weaken c.1.0 (λ f g. declared f.1.pie_type g) h) emitted)

module _ (rstrip : String → String) (service_name output_path : String) (p : Parsed) where
  -- the comments at the top and before the stubs
  abbrev pub comments : List String
  comments = rstrip (pie_header p.service service_name output_path) ∷ rstrip pie_stub_comment ∷ []

  -- The text is of lines that are fixed or declare the types that they use, and every class of the
  -- model is begun by one of them.
  abbrev pub IsWhole : Type 0
  IsWhole =
      (lines : List String) × (generate_pie rstrip p service_name output_path ≡ join "\n" lines)
      × All (IsLine comments lines) lines
      × ((name : String)
          → IsClass p.shapes name
          → mem (concat "class " (concat name ":")) lines ≡ true)

  module _ (closed : All (λ d. IsClosed p.shapes d.1) p.shapes) where
    abbrev Good : String → Type 0
    Good = IsLine comments (pie_lines rstrip p service_name output_path)
