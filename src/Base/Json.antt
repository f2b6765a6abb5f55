-- ===== src/Base/Json.antt =====
-- nlohmann::json values as the services read them. A number is kept as its text; an object is the
-- list of its fields with distinct keys, and a text is its bytes.
use Prim.Native.Nat.{ℕ}
use Prim.Native.String.{String}
use mathlib.Core.Path.{◌≡◌, refl}
use mathlib.Core.Logic.{◌≢◌}
use mathlib.Core.Bool.{Bool}
use mathlib.Core.Option.{Option, none, some}
use mathlib.Core.List.{List}
use eye_d.Base.Tests.{if◌then◌else◌}
use package.text.Mathlib.Text.{◌==◌ as str_eq}

mutual
  pub data Json : Type 0 where
    null : Json
    bool : Bool → Json
    number : List ℕ → Json
    text : List ℕ → Json
    array : Items → Json
    object : Fields → Json

  pub data Items : Type 0 where
    nil : Items
    cons : Json → Items → Items

  pub data Fields : Type 0 where
    end : Fields
    field : String → Json → Fields → Fields

abbrev pub find_field : String → Fields → Option Json
find_field k end = none
find_field k (field j v fs) = if str_eq j k then some v else find_field k fs

abbrev pub erase_field : String → Fields → Fields
erase_field k end = end
erase_field k (field j v fs) = if str_eq j k then erase_field k fs else field j v (erase_field k fs)

-- `j.value(key, fallback)` with a text for a fallback, on an object: the text of the field, the
-- fallback if there is no such field, and `none` for the type_error that a field of any other type
-- throws.
as_text : Json → Option (List ℕ)
as_text (text s) = some s
as_text _ = none

unfoldable pub value_text : Fields → String → List ℕ → Option (List ℕ)
unfolding as_text
value_text fs key fallback = elim (find_field key fs) [ none ↦ some fallback | some v ↦ as_text v ]

-- A field of an object that is there and no text.
abbrev pub NotText : Fields → String → Type 0
NotText fs key = (v : Json) × (find_field key fs ≡ some v) × ((s : List ℕ) → v ≢ text s)

as_text_throws : (v : Json) → ((s : List ℕ) → v ≢ text s) → as_text v ≡ none
unfolding as_text
as_text_throws (text s) h = absurd (h s refl)
as_text_throws _ h = refl

pub value_text_throws :
    (fs : Fields) (key : String) (fallback : List ℕ)
    → NotText fs key
    → value_text fs key fallback ≡ none
unfolding value_text
value_text_throws fs key fallback (v, e, h) = rw (e, value_text) (as_text_throws v h)

pub value_text_found :
    (fs : Fields) (key : String) (fallback s : List ℕ)
    → find_field key fs ≡ some (text s)
    → value_text fs key fallback ≡ some s
unfolding value_text
value_text_found fs key fallback s e = rw (e, value_text)
