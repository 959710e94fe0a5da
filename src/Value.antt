-- ===== src/Value.antt =====
-- Values of `Any`, as tool calls, tool results and free-form metadata hold them.
use evernight_ai.Prelude.{
  ℕ, String, ◌≡◌, refl, ap, Bool, true, false, not, Option, none, some, [], ◌∷◌, ◌==◌, nat_eq,
  string_eq, option_eq, pair_eq,
}
use evernight_ai.Dict.{Dict}

mutual
  -- The values that the modelled code does not look into, with their truth values: `unhashable` is a
  -- list or another object that cannot be in a set, `other` a float, a negative number or another
  -- object that can.
  pub data Value : Type 0 where
    null : Value
    bool : Bool → Value
    int : ℕ → Value
    text : String → Value
    dict : Fields → Value
    unhashable other : Bool → Value

  pub data Fields : Type 0 where
    end : Fields
    field : String → Value → Fields → Fields

-- The entries of a dictionary value.
unfoldable pub entries : Fields → Dict String Value
entries end = []
entries (field k v fs) = (k, v) ∷ entries fs

unfoldable pub from_entries : Dict String Value → Fields
from_entries [] = end
from_entries ((k, v) ∷ d) = field k v (from_entries d)

pub entries-from_entries : (d : Dict String Value) → entries (from_entries d) ≡ d
unfolding entries from_entries
entries-from_entries [] = refl
entries-from_entries ((k, v) ∷ d) = ap (◌∷◌ (k, v)) (entries-from_entries d)

-- `bool(v)`
unfoldable pub truthy : Value → Bool
truthy null = false
truthy (bool b) = b
truthy (int n) = not (n == 0)
truthy (text s) = not (s == "")
truthy (dict end) = false
truthy (dict (field k v fs)) = true
truthy (unhashable b) = b
truthy (other b) = b

-- `bool(d.get(k))`
unfoldable pub truthy_at : Option Value → Bool
unfolding truthy
truthy_at none = false
truthy_at (some v) = truthy v

-- `v in {...}` raises a TypeError.
unfoldable pub is_unhashable : Value → Bool
is_unhashable (dict fs) = true
is_unhashable (unhashable b) = true
is_unhashable _ = false

-- `isinstance(v, str)` with the text.
unfoldable pub as_text : Value → Option String
as_text (text s) = some s
as_text _ = none

-- A text or `None` as a value.
unfoldable pub from_text : Option String → Value
from_text none = null
from_text (some s) = text s
