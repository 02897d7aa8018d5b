-- ===== src/Service.antt =====
-- `Service::Service` (nodebus/core/service.cpp): the tests of a service's prefix and name.
use jsonbus.Prelude.{ℕ, ◌≢◌, List, [], ◌∷◌, is_empty, if◌then◌else◌}

pub data Service : Type 0 where
  service : List ℕ → List ℕ → Service
  invalid_prefix invalid_name : Service

-- The constructor, whose second test is of the prefix again.
unfoldable pub new_service : List ℕ → List ℕ → Service
new_service prefix name =
    if is_empty prefix
    then invalid_prefix
    else if is_empty prefix
    then invalid_name
    else service prefix name

-- No name is ever refused.
pub new_service_name : (prefix name : List ℕ) → new_service prefix name ≢ invalid_name
unfolding new_service
new_service_name [] name e = cc
new_service_name (c ∷ prefix) name e = cc
