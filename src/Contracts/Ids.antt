-- ===== src/Contracts/Ids.antt =====
-- src/testbed_contracts/ids.py: JSON values and the identities derived from their hashes. SHA-256
-- is a parameter. An identifier such as `evt_…` is the number that its hexadecimal digits write.
use multi_agent_testbed.Base.{
  ℕ, ◌-◌, ◌/◌, ◌^◌, String, Bool, Option, none, some, List, [], ◌∷◌, Dict, ℤ,
}

-- The floats that are no numbers.
pub data NotFinite : Type 0 where
  not_a_number infinite minus_infinite : NotFinite

-- `ref prefix ns` is a text that is a fixed prefix and rendered numbers, such as `inv_<run>_<n>`.
-- `real n` is a float, in millionths, and `not_finite` one that is no number.
mutual
  pub data Json : Type 0 where
    null : Json
    bool : Bool → Json
    num : ℕ → Json
    real : ℤ → Json
    not_finite : NotFinite → Json
    text : String → Json
    ref : String → List ℕ → Json
    arr : Items → Json
    obj : Fields → Json

  pub data Items : Type 0 where
    nil : Items
    cons : Json → Items → Items

  pub data Fields : Type 0 where
    end : Fields
    field : String → Json → Fields → Fields

abbrev pub fields : Dict Json → Fields
fields [] = end
fields ((k, v) ∷ m) = field k v (fields m)

abbrev pub object : Dict Json → Json
object m = obj (fields m)

abbrev pub entries : Fields → Dict Json
entries end = []
entries (field k v rest) = (k, v) ∷ entries rest

-- `dict(value)`, of a value that is a dictionary
abbrev pub as_dict : Json → Dict Json
as_dict (obj f) = entries f
as_dict _ = []

abbrev pub texts : List String → Json
texts xs = arr (names xs)
  where
    names : List String → Items
    names [] = nil
    names (s ∷ ss) = cons (text s) (names ss)

abbrev pub optional : Option String → Json
optional none = null
optional (some s) = text s

-- SHA-256 of the canonical JSON text, as a number below 2 ^ 256.
pub record Hashing : Type 0 where
  pub sha256 : Json → ℕ

unfoldable pub content_hash : Hashing → Json → ℕ
content_hash h value = h.sha256 value

-- The first `length` of the 64 hexadecimal digits.
unfoldable pub short_hash : Hashing → Json → ℕ → ℕ
unfolding content_hash
short_hash h value length = content_hash h value / 16 ^ (64 - length)

unfoldable pub derive_run_id :
    Hashing → String → String → ℕ → String → Option String → Option String → ℕ → ℕ
unfolding short_hash
derive_run_id h experiment_id task_id env_seed team_config_id partner perturbation repetition =
    short_hash h
      (object (
        ("experiment_id", text experiment_id)
        ∷ ("task_id", text task_id)
        ∷ ("env_seed", num env_seed)
        ∷ ("team_config_id", text team_config_id)
        ∷ ("partner_population_id", optional partner)
        ∷ ("perturbation_id", optional perturbation)
        ∷ ("repetition", num repetition)
        ∷ []))
      16

unfoldable pub idempotency_key : Hashing → ℕ → Json → ℕ
unfolding short_hash
idempotency_key h run_id logical_action =
    short_hash h (object (("run_id", ref "run_" (run_id ∷ [])) ∷ ("action", logical_action) ∷ []))
      24
