-- ===== src/Domain/Json.antt =====
-- The values of JSON columns, payloads and metadata.
use ject6_4th_ai_analyzer.Base.{
  Bool, Option, none, some, List, [], ◌∷◌, Text, ◌==◌, text_eq, if◌then◌else◌,
}
use ject6_4th_ai_analyzer.Base.Int.{ℤ}

mutual
  pub data Json : Type 0 where
    null : Json
    boolean : Bool → Json
    number : ℤ → Json
    string : Text → Json
    array : Items → Json
    object : Fields → Json

  pub data Items : Type 0 where
    nil : Items
    cons : Json → Items → Items

  pub data Fields : Type 0 where
    end : Fields
    field : Text → Json → Fields → Fields

-- `d[k] = v`
unfoldable pub set_field : Text → Json → Fields → Fields
set_field k v end = field k v end
set_field k v (field j w d) = if j == k then field k v d else field j w (set_field k v d)

-- `d.get(k)`
unfoldable pub get_field : Text → Fields → Option Json
get_field k end = none
get_field k (field j w d) = if j == k then some w else get_field k d

abbrev pub strings : List Text → Items
strings [] = nil
strings (t ∷ ts) = cons (string t) (strings ts)

abbrev pub numbers : List ℤ → Items
numbers [] = nil
numbers (n ∷ ns) = cons (number n) (numbers ns)
