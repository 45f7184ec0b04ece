-- ===== src/TopCrates.antt =====
-- The choice of crates: `top-crates/src/lib.rs`. What Cargo resolves is a parameter.
pub mod Walk
pub mod Found
use rust_playground.Base.{
  ℕ, zero, suc, String, str_eq, ◌==◌, Bool, true, false, not, ◌&&◌, ◌||◌, Option, none, some, List,
  [], ◌∷◌, any, if◌then◌else◌, Map, insert,
}

-- A set of features, by what is in it.
abbrev pub FeatureSet : Type 0
FeatureSet = String → Bool

pub record FeaturesLite : Type 0 where
  pub features : FeatureSet
  pub uses_default_features : Bool

unfoldable pub merge : FeaturesLite → FeaturesLite → FeaturesLite
merge self other = record {
  features = λ f. self.features f || other.features f;
  uses_default_features = self.uses_default_features || other.uses_default_features;
}

pub finalize : FeaturesLite → FeaturesLite
finalize self = record {
  features = λ f. if str_eq f "default" then false else self.features f;
  uses_default_features = self.features "default" || self.uses_default_features;
}

-- The metadata of a package for the playground, with its defaults.
pub record Metadata : Type 0 where
  pub features : FeatureSet
  pub default_features : Bool
  pub all_features : Bool

-- `playground_metadata_features`, from the metadata as it was read, none of it or not, and the
-- features that the package has.
pub metadata_features : Option (Option Metadata) → FeatureSet → Option FeaturesLite
metadata_features none all = none
metadata_features (some none) all = none
metadata_features (some (some metadata)) all = some (record {
  features = if metadata.all_features then all else metadata.features;
  uses_default_features = metadata.default_features;
})

-- What a visited package is given beside the features of its visits.
pub with_metadata : FeaturesLite → Option FeaturesLite → FeaturesLite
unfolding merge
with_metadata features none = features
with_metadata features (some metadata) = merge features metadata

-- `semver`: versions, and what a comparator matches.
pub record Semver : Type 1 where
  pub Version : Type 0
  pub Comparator : Type 0
  pub matches : Comparator → Version → Bool

module _ (semver : Semver) where
  open semver use {Version, Comparator, matches}

  pub record Exclusion : Type 0 where
    pub name : String
    pub versions : Option Comparator

  excludes : Option Comparator → Version → Bool
  excludes (some versions) version = matches versions version
  excludes none version = true

  -- `Modifications::excluded`: the first exclusion of the name decides.
  unfoldable pub excluded : List Exclusion → String → Version → Bool
  unfolding excludes
  excluded [] name version = false
  excluded (e ∷ es) name version =
      let rest = excluded es name version in
      if str_eq e.name name then excludes e.versions version else rest

-- A dependency as a manifest spells it; of the platform that it is for, if any, whether it matches
-- the playground's.
pub record Dependency : Type 0 where
  pub is_optional : Bool
  pub name_in_toml : String
  pub features : FeatureSet
  pub uses_default_features : Bool
  pub platform : Option Bool

-- Packages are numbered. `deps` is what Cargo resolved, `is_dep_activated` what it made of the
-- features, `is_excluded` is `excluded` at the package's name and version.
pub record Resolved : Type 0 where
  pub deps : ℕ → List (ℕ × List Dependency)
  pub is_dep_activated : ℕ → String → Bool
  pub is_excluded : ℕ → Bool

-- `BTreeSet`, in no order.
abbrev pub member : ℕ → List ℕ → Bool
member k ks = any (λ j. j == k) ks

abbrev pub insert_id : ℕ → List ℕ → List ℕ
insert_id k ks = if member k ks then ks else k ∷ ks

-- What was visited, and what is to be visited next.
pub record Visits : Type 0 where
  pub visited : Map FeaturesLite
  pub next_to_visit : List ℕ

abbrev pub features_of : Dependency → FeaturesLite
features_of dep = record {
  features = dep.features;
  uses_default_features = dep.uses_default_features;
}

-- `visited.entry(dep_pkg_id)`
abbrev pub entry : Option FeaturesLite → FeaturesLite → FeaturesLite
entry none features = features
entry (some old) features = merge old features

-- `is_none_or`
abbrev pub for_our_platform : Option Bool → Bool
for_our_platform none = true
for_our_platform (some matches) = matches

module _ (r : Resolved) where
  abbrev pub is_active : ℕ → Dependency → Bool
  is_active pkg_id dep =
      (if dep.is_optional then r.is_dep_activated pkg_id dep.name_in_toml else true)
      && for_our_platform dep.platform

  unfoldable pub visit_dep : ℕ → ℕ → Dependency → Visits → Visits
  visit_dep pkg_id dep_pkg_id dep v =
      if is_active pkg_id dep
      then record {
        visited = insert dep_pkg_id (entry (v.visited dep_pkg_id) (features_of dep)) v.visited;
        next_to_visit = insert_id dep_pkg_id v.next_to_visit;
      }
      else v

  -- `for dep in deps`
  unfoldable pub visit_deps : ℕ → ℕ → List Dependency → Visits → Visits
  visit_deps pkg_id dep_pkg_id [] v = v
  visit_deps pkg_id dep_pkg_id (dep ∷ deps) v =
      visit_deps pkg_id dep_pkg_id deps (visit_dep pkg_id dep_pkg_id dep v)

  -- `for (dep_pkg_id, deps) in resolve.deps(pkg_id)`
  unfoldable pub visit_package : ℕ → List (ℕ × List Dependency) → Visits → Visits
  visit_package pkg_id [] v = v
  visit_package pkg_id ((dep_pkg_id, deps) ∷ rest) v =
      visit_package pkg_id rest
        (if r.is_excluded dep_pkg_id then v else visit_deps pkg_id dep_pkg_id deps v)

  -- `for pkg_id in to_visit`
  unfoldable pub visit_all : List ℕ → Visits → Visits
  visit_all [] v = v
  visit_all (pkg_id ∷ to_visit) v = visit_all to_visit (visit_package pkg_id (r.deps pkg_id) v)

  -- `while !to_visit.is_empty()`, on fuel.
  unfoldable pub walk : ℕ → List ℕ → Map FeaturesLite → Option (Map FeaturesLite)
  walk fuel [] visited = some visited
  walk zero (i ∷ to_visit) visited = none
  walk (suc fuel) (i ∷ to_visit) visited =
      let v = visit_all (i ∷ to_visit) (record { visited = visited; next_to_visit = [] }) in
      walk fuel v.next_to_visit v.visited
