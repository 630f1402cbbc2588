-- ===== src/Tests/Codec.antt =====
-- A pair of `json.dumps` and `json.loads` for the tests: a value is written as the instructions of a
-- stack machine that builds it.
use remnanode_xhttp_cleaner.Base.{
  ℕ, ◌+◌, ◌-◌, ◌≡◌, refl, ◌∙◌, true, false, Option, none, some, List, [], ◌∷◌, ◌==◌, ltb,
  if◌then◌else◌, arith,
}
use remnanode_xhttp_cleaner.Base.Int.{pos, negsuc}
use remnanode_xhttp_cleaner.Base.Text.{Text}
use remnanode_xhttp_cleaner.Json.{
  Json, null, bool, int, float, str, list, dict, finite, infinite, nan, Items, nil, item, Fields,
  end, field,
}

data Cell : Type 0 where
  value : Json → Cell
  text : Text → Cell
  items : Items → Cell
  fields : Fields → Cell

data Operation : Type 0 where
  new_text new_null new_true new_false to_int to_negative to_float to_negative_float new_infinite
        new_nan to_str new_items add_item to_list new_fields add_field to_dict skip :
      Operation

-- One instruction; one that does not fit the stack does nothing.
step : Operation → List Cell → List Cell
step new_text stack = text [] ∷ stack
step new_null stack = value null ∷ stack
step new_true stack = value (bool true) ∷ stack
step new_false stack = value (bool false) ∷ stack
step to_int (text (n ∷ []) ∷ stack) = value (int (pos n)) ∷ stack
step to_negative (text (n ∷ []) ∷ stack) = value (int (negsuc n)) ∷ stack
step to_float (text (n ∷ []) ∷ stack) = value (float (finite (pos n))) ∷ stack
step to_negative_float (text (n ∷ []) ∷ stack) = value (float (finite (negsuc n))) ∷ stack
step new_infinite stack = value (float infinite) ∷ stack
step new_nan stack = value (float nan) ∷ stack
step to_str (text t ∷ stack) = value (str t) ∷ stack
step new_items stack = items nil ∷ stack
step add_item (value v ∷ items is ∷ stack) = items (item v is) ∷ stack
step to_list (items is ∷ stack) = value (list is) ∷ stack
step new_fields stack = fields end ∷ stack
step add_field (text k ∷ value v ∷ fields fs ∷ stack) = fields (field k v fs) ∷ stack
step to_dict (fields fs ∷ stack) = value (dict fs) ∷ stack
step op stack = stack

operation : ℕ → Operation
operation n =
    if n == 0
    then new_text
    else if n == 1
    then new_null
    else if n == 2
    then new_true
    else if n == 3
    then new_false
    else if n == 4
    then to_int
    else if n == 5
    then to_negative
    else if n == 6
    then to_float
    else if n == 7
    then to_negative_float
    else if n == 8
    then new_infinite
    else if n == 9
    then new_nan
    else if n == 10
    then to_str
    else if n == 11
    then new_items
    else if n == 12
    then add_item
    else if n == 13
    then to_list
    else if n == 14
    then new_fields
    else if n == 15
    then add_field
    else if n == 16
    then to_dict
    else skip

push_char : ℕ → List Cell → List Cell
push_char c (text t ∷ stack) = text (c ∷ t) ∷ stack
push_char c stack = stack

-- A number from 20 on is a character.
next : ℕ → List Cell → List Cell
next n stack = if ltb n 20 then step (operation n) stack else push_char (n - 20) stack

execute : Text → List Cell → List Cell
execute [] stack = stack
execute (n ∷ rest) stack = execute rest (next n stack)

-- Each writes in front of `rest`.
write_text : Text → Text → Text
write_text [] rest = 0 ∷ rest
write_text (c ∷ t) rest = write_text t ((c + 20) ∷ rest)

mutual
  write_json : Json → Text → Text
  write_json null rest = 1 ∷ rest
  write_json (bool true) rest = 2 ∷ rest
  write_json (bool false) rest = 3 ∷ rest
  write_json (int (pos n)) rest = write_text (n ∷ []) (4 ∷ rest)
  write_json (int (negsuc n)) rest = write_text (n ∷ []) (5 ∷ rest)
  write_json (float (finite (pos n))) rest = write_text (n ∷ []) (6 ∷ rest)
  write_json (float (finite (negsuc n))) rest = write_text (n ∷ []) (7 ∷ rest)
  write_json (float infinite) rest = 8 ∷ rest
  write_json (float nan) rest = 9 ∷ rest
  write_json (str t) rest = write_text t (10 ∷ rest)
  write_json (list is) rest = write_items is (13 ∷ rest)
  write_json (dict fs) rest = write_fields fs (16 ∷ rest)

  write_items : Items → Text → Text
  write_items nil rest = 11 ∷ rest
  write_items (item v is) rest = write_items is (write_json v (12 ∷ rest))

  write_fields : Fields → Text → Text
  write_fields end rest = 14 ∷ rest
  write_fields (field k v fs) rest = write_fields fs (write_json v (write_text k (15 ∷ rest)))

next-char :
    (c : ℕ) (t : Text) (stack : List Cell) → next (c + 20) (text t ∷ stack) ≡ text (c ∷ t) ∷ stack
unfolding next push_char
next-char c t stack =
    let small : ltb (c + 20) 20 ≡ false = ground arith in
    let same : c + 20 - 20 ≡ c = omega arith in rw (small, same)

execute-text :
    (t rest : Text) (stack : List Cell)
    → execute (write_text t rest) stack ≡ execute rest (text t ∷ stack)
unfolding execute write_text next operation step
execute-text [] rest stack = refl
execute-text (c ∷ t) rest stack = execute-text t ((c + 20) ∷ rest) stack ∙ rw (next-char c t stack)

mutual
  unfolding execute write_json write_items write_fields next operation step

  execute-json :
      (v : Json) (rest : Text) (stack : List Cell)
      → execute (write_json v rest) stack ≡ execute rest (value v ∷ stack)
  execute-json null rest stack = refl
  execute-json (bool true) rest stack = refl
  execute-json (bool false) rest stack = refl
  execute-json (int (pos n)) rest stack = execute-text (n ∷ []) (4 ∷ rest) stack
  execute-json (int (negsuc n)) rest stack = execute-text (n ∷ []) (5 ∷ rest) stack
  execute-json (float (finite (pos n))) rest stack = execute-text (n ∷ []) (6 ∷ rest) stack
  execute-json (float (finite (negsuc n))) rest stack = execute-text (n ∷ []) (7 ∷ rest) stack
  execute-json (float infinite) rest stack = refl
  execute-json (float nan) rest stack = refl
  execute-json (str t) rest stack = execute-text t (10 ∷ rest) stack
  execute-json (list is) rest stack = execute-items is (13 ∷ rest) stack
  execute-json (dict fs) rest stack = execute-fields fs (16 ∷ rest) stack

  execute-items :
      (is : Items) (rest : Text) (stack : List Cell)
      → execute (write_items is rest) stack ≡ execute rest (items is ∷ stack)
  execute-items nil rest stack = refl
  execute-items (item v is) rest stack =
      execute-items is (write_json v (12 ∷ rest)) stack
      ∙ execute-json v (12 ∷ rest) (items is ∷ stack)

  execute-fields :
      (fs : Fields) (rest : Text) (stack : List Cell)
      → execute (write_fields fs rest) stack ≡ execute rest (fields fs ∷ stack)
  execute-fields end rest stack = refl
  execute-fields (field k v fs) rest stack =
      execute-fields fs (write_json v (write_text k (15 ∷ rest))) stack
      ∙ execute-json v (write_text k (15 ∷ rest)) (fields fs ∷ stack)
      ∙ execute-text k (15 ∷ rest) (value v ∷ fields fs ∷ stack)

abbrev only_value : List Cell → Option Json
only_value (value v ∷ []) = some v
only_value _ = none

pub test_dumps : Json → Text
unfolding write_json
test_dumps v = write_json v []

pub test_loads : Text → Option Json
unfolding execute next operation step push_char
test_loads t = only_value (execute t [])

pub test_loads-dumps : (v : Json) → test_loads (test_dumps v) ≡ some v
unfolding test_loads test_dumps
test_loads-dumps v = rw (execute-json v [] [])
