-- ===== src/Tests/Crates.antt =====
-- Four packages: the first depends on the second, which depends on an excluded one and, if asked,
-- on the last.
use rust_playground.Base.{
  ℕ, zero, suc, String, str_eq, true, false, none, some, List, [], ◌∷◌, ◌≡◌, ◌↔◌, ◌<◌, arith,
  empty_map, Map, ◌==◌,
}
use rust_playground.TopCrates.{FeaturesLite, FeatureSet, Dependency, Resolved, walk}
use rust_playground.TopCrates.Walk.{marked}
use rust_playground.TopCrates.Found.{Edge, Found, walk-finds}

abbrev no_features : FeatureSet
no_features f = false

abbrev plain : Dependency
plain = record {
  is_optional = false;
  name_in_toml = "plain";
  features = λ f. str_eq f "std";
  uses_default_features = true;
  platform = none;
}

abbrev optional : Dependency
optional = record plain { is_optional = true; name_in_toml = "optional"; features = no_features }

abbrev deps : ℕ → List (ℕ × List Dependency)
deps zero = (1, plain ∷ []) ∷ []
deps (suc zero) = (2, plain ∷ []) ∷ (3, optional ∷ []) ∷ []
deps (suc (suc n)) = []

abbrev resolved : Resolved
resolved = record { deps = deps; is_dep_activated = λ i n. false; is_excluded = λ i. i == 2 }

abbrev rank : ℕ → ℕ
rank zero = 2
rank (suc zero) = 1
rank (suc (suc n)) = 0

resolved-acyclic : (i j : ℕ) → Edge resolved i j → rank j < rank i
resolved-acyclic zero zero e = absurd (cc)
resolved-acyclic zero (suc zero) e = omega arith
resolved-acyclic zero (suc (suc j)) e = omega arith
resolved-acyclic (suc zero) zero e = absurd (cc)
resolved-acyclic (suc zero) (suc zero) e = absurd (cc)
resolved-acyclic (suc zero) (suc (suc j)) e = omega arith
resolved-acyclic (suc (suc n)) j e = absurd (cc)

rank-lt : (i : ℕ) → rank i < 3
rank-lt zero = omega arith
rank-lt (suc zero) = omega arith
rank-lt (suc (suc n)) = omega arith

walk-finds_example :
    (end : Map FeaturesLite) × (walk resolved 3 (0 ∷ []) empty_map ≡ some end)
    × ((j : ℕ) → (marked (λ f. true) (end j) ≡ true) ↔ Found resolved (0 ∷ []) (λ d. true) j)
    × ((j : ℕ) (n : String)
        → (marked (λ f. f.features n) (end j) ≡ true)
          ↔ Found resolved (0 ∷ []) (λ d. d.features n) j)
    × ((j : ℕ)
        → (marked (λ f. f.uses_default_features) (end j) ≡ true)
          ↔ Found resolved (0 ∷ []) (λ d. d.uses_default_features) j)
walk-finds_example = walk-finds resolved rank resolved-acyclic 3 (0 ∷ []) (λ i m. rank-lt i)
