-- ===== src/Api/Json.antt =====
-- The values that `json.loads` returns, over the type `N` of its numbers, and what
-- src/api/main.py does with them: `data.get(key)` and `a or b`.
use aiops_distributed_log.Prelude.{
  Bool, true, false, not, String, ◌==◌, string_eq, if◌then◌else◌, Result, ok, err,
}

mutual
  pub data Json (N : Type 0) : Type 0 where
    null : Json N
    bool : Bool → Json N
    num : N → Json N
    str : String → Json N
    arr : Items N → Json N
    obj : Fields N → Json N

  pub data Items (N : Type 0) : Type 0 where
    nil : Items N
    cons : Json N → Items N → Items N

  pub data Fields (N : Type 0) : Type 0 where
    end : Fields N
    field : String → Json N → Fields N → Fields N

module _ {N : Type 0} where
  -- `d.get(key)` of a dict: `None` where the key is missing.
  abbrev pub lookup : String → Fields N → Json N
  lookup key end = null
  lookup key (field k v rest) = if k == key then v else lookup key rest

  -- `data.get(key)`: only a dict has the method.
  abbrev pub get : Json N → String → Result (Json N)
  get (obj fields) key = ok (lookup key fields)
  get _ key = err "AttributeError"

module _ {N : Type 0} (is_zero : N → Bool) where
  -- Python's truth of a value.
  abbrev pub truthy : Json N → Bool
  truthy null = false
  truthy (bool b) = b
  truthy (num n) = not (is_zero n)
  truthy (str s) = not (s == "")
  truthy (arr nil) = false
  truthy (arr (cons x xs)) = true
  truthy (obj end) = false
  truthy (obj (field k x fields)) = true

  -- `a or b`
  abbrev pub or_else : Json N → Json N → Json N
  or_else a b = if truthy a then a else b
