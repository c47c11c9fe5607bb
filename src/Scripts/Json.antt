-- ===== src/Scripts/Json.antt =====
-- The JSON values that the scripts look into. `json.loads`, `json.dumps`, `==` of values and
-- `bytes.decode` are Python's.
use lambpie.Common.{ℕ, String, Bool, Option, none, some, ◌==◌, if◌then◌else◌}
use lambpie.Scripts.Effects.{other_error, Answer, given, refused}
use lambpie.Scripts.Calls.{Bytes}

mutual
  pub data Json : Type 0 where
    null : Json
    boolean : Bool → Json
    number : ℕ → Json
    -- negative or fractional, as it is written
    other_number : String → Json
    text : String → Json
    array : Jsons → Json
    object : Members → Json

  pub data Jsons : Type 0 where
    nil : Jsons
    cons : Json → Jsons → Jsons

  pub data Members : Type 0 where
    none_left : Members
    member : String → Json → Members → Members

-- Python's functions on JSON texts, bytes and values
pub record Python : Type 0 where
  -- none where it is no JSON
  pub loads : String → Option Json
  pub dumps : Json → String
  pub encode : String → Bytes
  -- none where the bytes are no UTF-8
  pub decode : Bytes → Option String
  -- `==` of two values
  pub same : Json → Json → Bool

unfoldable pub get_member : String → Members → Option Json
get_member key none_left = none
get_member key (member k v rest) = if k == key then some v else get_member key rest

-- `value.get(key)`; only a dict has the method
unfoldable pub get : Json → String → Answer (Option Json)
get (object members) key = given (get_member key members)
get _ key = refused other_error
