-- ===== src/Json.antt =====
-- The JSON documents that the accelerators read. The parsers (rapidjson, nlohmann) are not in the
-- repository: a document is their result, and a read that they leave undefined is `err undefined`.
-- `D` is the type of doubles. The integers of the service are not negative.
use xacc_ibm.Common.{
  ℕ, Bool, true, false, List, [], ◌∷◌, Option, none, some, Result, ok, err, undefined, at_hand,
  ◌>>=◌, if◌then◌else◌, get_elem?,
}
use xacc_ibm.Common.Text.{Text, text_eq}

mutual
  pub data Json (D : Type 0) : Type 0 where
    null : Json D
    boolean : Bool → Json D
    integer : ℕ → Json D
    real : D → Json D
    string : Text → Json D
    array : Items D → Json D
    object : Fields D → Json D

  pub data Items (D : Type 0) : Type 0 where
    nil : Items D
    cons : Json D → Items D → Items D

  pub data Fields (D : Type 0) : Type 0 where
    end : Fields D
    field : Text → Json D → Fields D → Fields D

module _ {D : Type 0} where
  abbrev pub elements : Items D → List (Json D)
  elements nil = []
  elements (cons v vs) = v ∷ elements vs

  abbrev pub entries : Fields D → List (Text × Json D)
  entries end = []
  entries (field k v fs) = (k, v) ∷ entries fs

  abbrev pub find_member : Fields D → Text → Option (Json D)
  find_member end k = none
  find_member (field j v fs) k = if text_eq j k then some v else find_member fs k

  -- `d.HasMember(k)`
  abbrev pub has_member : Json D → Text → Result Bool
  has_member (object fs) k = elim (find_member fs k) [ none ↦ ok false | some v ↦ ok true ]
  has_member _ k = err undefined

  -- `d[k]`
  abbrev pub member : Json D → Text → Result (Json D)
  member (object fs) k = at_hand (find_member fs k)
  member _ k = err undefined

  abbrev pub get_string : Json D → Result Text
  get_string (string s) = ok s
  get_string _ = err undefined

  abbrev pub get_int : Json D → Result ℕ
  get_int (integer n) = ok n
  get_int _ = err undefined

  abbrev pub get_bool : Json D → Result Bool
  get_bool (boolean b) = ok b
  get_bool _ = err undefined

  abbrev pub is_array : Json D → Bool
  is_array (array vs) = true
  is_array _ = false

  abbrev pub get_array : Json D → Result (List (Json D))
  get_array (array vs) = ok (elements vs)
  get_array _ = err undefined

  -- `MemberBegin()` to `MemberEnd()`
  abbrev pub members : Json D → Result (List (Text × Json D))
  members (object fs) = ok (entries fs)
  members _ = err undefined

  -- `d[i]`
  abbrev pub index : Json D → ℕ → Result (Json D)
  index v i = do vs ← get_array v; at_hand (get_elem? vs i)

  -- `GetDouble()`, which also reads an integer
  abbrev pub get_double : (ℕ → D) → Json D → Result D
  get_double of_int (real d) = ok d
  get_double of_int (integer n) = ok (of_int n)
  get_double of_int _ = err undefined
