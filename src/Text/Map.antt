-- ===== src/Text/Map.antt =====
-- std::unordered_map from texts, as the sources use it: one entry for each key, in an order
-- that nothing depends on.
pub mod Laws
use lddm.Base.{Bool, true, false, List, [], ◌∷◌, Option, none, some, if◌then◌else◌}
use lddm.Text.{Text, same_text}

abbrev pub Map {ℓ} : Type ℓ → Type ℓ
Map V = List (Text × V)

abbrev pub Variables : Type 0
Variables = Map Text

module _ {ℓ} {V : Type ℓ} where
  unfoldable pub find : Text → Map V → Option V
  find k [] = none
  find k ((k', v) ∷ vs) = if same_text k' k then some v else find k vs

  abbrev pub has : Text → Map V → Bool
  has k vs = elim (find k vs) [ none ↦ false | some v ↦ true ]

  -- `variables[key] = value`
  unfoldable pub put : Text → V → Map V → Map V
  put k v [] = (k, v) ∷ []
  put k v ((k', v') ∷ vs) = if same_text k' k then (k, v) ∷ vs else (k', v') ∷ put k v vs

  unfoldable pub erase : Text → Map V → Map V
  erase k [] = []
  erase k ((k', v') ∷ vs) = if same_text k' k then vs else (k', v') ∷ erase k vs

  -- `for (const auto& [k, v] : overrides) variables[k] = v;`
  unfoldable pub merge : Map V → Map V → Map V
  unfolding put
  merge [] vs = vs
  merge ((k, v) ∷ overrides) vs = merge overrides (put k v vs)
