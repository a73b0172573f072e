-- ===== src/Rng.antt =====
-- src/testbed_kernel/rng.py: labelled randomness. `random.Random`, Python's generator, is a
-- parameter: what the first draw from each seed is.
pub mod Streams
use Prim.Native.String
use multi_agent_testbed.Base.{
  ℕ, zero, suc, ◌+◌, ◌<◌, String, ◌≡◌, Bool, true, false, Option, none, some, List, [], ◌∷◌, ◌++◌,
  length, ◌==◌, if◌then◌else◌, str_eq, get_or,
}
use multi_agent_testbed.Contracts.Ids.{Json, num, text, ref, object, Hashing, short_hash}
use multi_agent_testbed.Records.{RngState, Label, fault_label, plugin_label}

-- `render` is Python's `str` of a JSON value. The others are the first result of each method on `random.Random(seed)`. A draw of `random()` is n / 2 ^ 53.
pub record Platform : Type 0 where
  pub hashing : Hashing
  pub draw : ℕ → ℕ
  pub draw_int : ℕ → ℕ → ℕ → ℕ
  pub draw_below : ℕ → ℕ → ℕ
  pub render : Json → String

pub data Decision : Type 0 where
  random_decision randint_decision choice_decision : Label → ℕ → Decision

pub record Rng : Type 0 where
  pub seed : ℕ
  pub counters : List (Label × ℕ)
  pub decisions : List Decision

abbrev pub same_label : Label → Label → Bool
same_label (fault_label a) (fault_label b) = a == b
same_label (plugin_label a) (plugin_label b) = str_eq a b
same_label _ _ = false

abbrev pub label_text : Label → Json
label_text (fault_label n) = ref "fault:" (n ∷ [])
label_text (plugin_label s) = text (String.◌++◌ "plugin:" s)

-- `self.counters.get(label, 0)`
unfoldable pub counter : Label → List (Label × ℕ) → ℕ
counter l [] = 0
counter l ((m, n) ∷ rest) = if same_label m l then n else counter l rest

unfoldable pub set_counter : Label → ℕ → List (Label × ℕ) → List (Label × ℕ)
set_counter l n [] = (l, n) ∷ []
set_counter l n ((m, k) ∷ rest) =
    if same_label m l then (m, n) ∷ rest else (m, k) ∷ set_counter l n rest

unfoldable pub new_rng : ℕ → Rng
new_rng seed = record { seed = seed; counters = []; decisions = [] }

-- `_next`: the seed of the next draw of a label, and the generator with that label's counter
-- moved on.
unfoldable pub next : Platform → Label → Rng → ℕ × Rng
next p l r =
    let index = counter l r.counters in
    (
      short_hash p.hashing
          (object (("seed", num r.seed) ∷ ("label", label_text l) ∷ ("i", num index) ∷ [])) 16,
      record r { counters = set_counter l (index + 1) r.counters },
    )

abbrev pub note : Decision → Rng → Rng
note d r = record r { decisions = r.decisions ++ d ∷ [] }

unfoldable pub random : Platform → Label → Rng → ℕ × Rng
random p l r =
    let value = p.draw (next p l r).0 in (value, note (random_decision l value) (next p l r).1)

unfoldable pub randint : Platform → Label → ℕ → ℕ → Rng → ℕ × Rng
randint p l low high r =
    let value = p.draw_int (next p l r).0 low high in
    (value, note (randint_decision l value) (next p l r).1)

abbrev pub nth {ℓ} : {A : Type ℓ} → List A → ℕ → Option A
nth [] i = none
nth (x ∷ xs) zero = some x
nth (x ∷ xs) (suc i) = nth xs i

-- `none` is the `ValueError` of an empty sequence; the generator is then untouched.
unfoldable pub choice {ℓ} : {A : Type ℓ} → Platform → Label → List A → Rng → Option A × Rng
choice p l [] r = (none, r)
choice p l (x ∷ xs) r =
    let index = p.draw_below (next p l r).0 (length (x ∷ xs)) in
    (nth (x ∷ xs) index, note (choice_decision l index) (next p l r).1)

unfoldable pub state : Rng → RngState
state r = record { seed = r.seed; counters = r.counters }

unfoldable pub restore : RngState → Rng
restore s = record { seed = s.seed; counters = s.counters; decisions = [] }
