-- ===== src/Base/Json.antt =====
-- JSON values, and Python's reads of a parsed one.
use nemoclaw_lab_cl.Base.{
  ℕ, String, Bool, Option, none, some, List, [], ◌∷◌, ◌==◌, if◌then◌else◌, ◌≡◌, refl, ap,
}

mutual
  pub data Json : Type 0 where
    null : Json
    bool : Bool → Json
    num : ℕ → Json
    str : String → Json
    arr : Items → Json
    obj : Fields → Json

  pub data Items : Type 0 where
    nil : Items
    item : Json → Items → Items

  pub data Fields : Type 0 where
    end : Fields
    field : String → Json → Fields → Fields

-- a list of values, and a dict with these entries
unfoldable pub items : List Json → Items
items [] = nil
items (x ∷ xs) = item x (items xs)

unfoldable pub fields : List (String × Json) → Fields
fields [] = end
fields ((k, v) ∷ kvs) = field k v (fields kvs)

unfoldable pub dict : List (String × Json) → Json
unfolding fields
dict kvs = obj (fields kvs)

unfoldable pub list : List Json → Json
unfolding items
list xs = arr (items xs)

unfoldable pub lookup : String → Fields → Option Json
lookup k end = none
lookup k (field j v fs) = if j == k then some v else lookup k fs

-- `d.get(k)`, or `d[k]` with `none` for the `KeyError`; `none` too when `d` is no dict
unfoldable pub at : String → Json → Option Json
unfolding lookup
at k (obj fs) = lookup k fs
at k _ = none

-- `d.get(k, default)`
unfoldable pub at_or : String → Json → Json → Json
unfolding at
at_or k default d = elim (at k d) [ none ↦ default | some v ↦ v ]

-- a text that is read where a text is expected; another value is passed on as it is in Python, and
-- reads as `none` here
abbrev pub as_text : Json → Option String
as_text (str s) = some s
as_text _ = none

unfoldable pub text_at : String → Json → Option String
unfolding at
text_at k d = elim (at k d) [ none ↦ none | some v ↦ as_text v ]

unfoldable pub to_list : Items → List Json
to_list nil = []
to_list (item x xs) = x ∷ to_list xs

pub to_list-items : (xs : List Json) → to_list (items xs) ≡ xs
unfolding to_list items
to_list-items [] = refl
to_list-items (x ∷ xs) = ap (λ ys. x ∷ ys) (to_list-items xs)
