-- ===== src/Runtime/Json.antt =====
-- JSON values, with Python dicts in insertion order; and `sanitize_args` of
-- src/litweave/runtime/tool_gateway.py, which drops the fields that hold secrets before hashing.
pub mod Sanitize
pub mod Access
use surveyforge.Base.{ℕ, Bool, String, Option, none, some, ◌==◌, if◌then◌else◌}

mutual
  pub data Json : Type 0 where
    null : Json
    bool : Bool → Json
    num : ℕ → Json
    str : String → Json
    arr : Items → Json
    obj : Fields → Json

  pub data Items : Type 0 where
    nil : Items
    cons : Json → Items → Items

  pub data Fields : Type 0 where
    end : Fields
    field : String → Json → Fields → Fields

-- `fields.get(k)`
unfoldable pub get_field : String → Fields → Option Json
get_field k end = none
get_field k (field j v fs) = if j == k then some v else get_field k fs

-- `v.get(k)` where `v` may be no dict
unfoldable pub get_key : String → Json → Option Json
unfolding get_field
get_key k (obj fs) = get_field k fs
get_key k _ = none
