-- ===== src/Json.antt =====
-- What `json.loads` returns: Python's values, with the tests and look-ups that the program makes.
use remnanode_xhttp_cleaner.Base.{Bool, Option, none, some, if◌then◌else◌}
use remnanode_xhttp_cleaner.Base.Int.{ℤ}
use remnanode_xhttp_cleaner.Base.Text.{Text, text_eq}

-- A float, as far as `int` reads it: a finite one by the integer to which it is truncated.
pub data Float : Type 0 where
  finite : ℤ → Float
  infinite nan : Float

mutual
  -- A constructor for each Python type; the keys of a `dict` are distinct.
  pub data Json : Type 0 where
    null : Json
    bool : Bool → Json
    int : ℤ → Json
    float : Float → Json
    str : Text → Json
    list : Items → Json
    dict : Fields → Json

  pub data Items : Type 0 where
    nil : Items
    item : Json → Items → Items

  pub data Fields : Type 0 where
    end : Fields
    field : Text → Json → Fields → Fields

-- `d.get(key)`, with `none` for a key that is absent
unfoldable pub find : Text → Fields → Option Json
unfolding text_eq
find k end = none
find k (field j v fs) = if text_eq j k then some v else find k fs

abbrev or_default : Json → Option Json → Json
or_default d none = d
or_default d (some v) = v

-- `d.get(key, default)`
unfoldable pub get : Text → Json → Fields → Json
unfolding find
get k d fs = or_default d (find k fs)
