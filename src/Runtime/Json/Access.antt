-- ===== src/Runtime/Json/Access.antt =====
-- Python's access to dicts that come from outside: what the lookup tools of src/litweave/tools and
-- src/litweave/llm/router.py read them with.
use surveyforge.Base.{String, none, some}
use surveyforge.Runtime.Errors.{Result, ok, err, key_error, runtime_error}
use surveyforge.Runtime.Json.{Json, obj, get_field}

-- `data[k]`, and `data.get(k, default)`; what is no dict raises.
unfoldable pub item_of : String → Json → Result Json
unfolding get_field
item_of k (obj fs) = elim (get_field k fs) [ none ↦ err (key_error k) | some v ↦ ok v ]
item_of k v = err (runtime_error "TypeError")

unfoldable pub get_or : String → Json → Json → Result Json
unfolding get_field
get_or k default (obj fs) = elim (get_field k fs) [ none ↦ ok default | some v ↦ ok v ]
get_or k default v = err (runtime_error "AttributeError")

abbrev pub then_read {ℓ} : {A B : Type ℓ} → Result A → (A → Result B) → Result B
then_read (ok a) f = f a
then_read (err e) f = err e
