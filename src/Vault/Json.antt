-- ===== src/Vault/Json.antt =====
-- The values of JSON that packages/cemp-secure-vault/src/format.ts writes and reads. `JSON.stringify`,
-- `JSON.parse` and the text encoder are the runtime's. A text is the list of its character codes.
use cemp_mobile.Prelude.{ℕ, Bool, List, Option, none, some, String, str_eq, if◌then◌else◌}

-- `other_number` is negative or not an integer; what an array holds is never read.
mutual
  pub data Json : Type 0 where
    null other_number array : Json
    boolean : Bool → Json
    number : ℕ → Json
    text : List ℕ → Json
    object : Fields → Json

  pub data Fields : Type 0 where
    end : Fields
    field : String → Json → Fields → Fields

-- `obj[name]`, `none` where `name in obj` is false; a parsed object has a name once.
unfoldable pub find_field : String → Fields → Option Json
find_field name end = none
find_field name (field other value rest) =
    if str_eq other name then some value else find_field name rest
