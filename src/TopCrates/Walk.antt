-- ===== src/TopCrates/Walk.antt =====
-- One round of the walk, seen through a mark that merging joins.
use rust_playground.Base.{
  ℕ, ◌==◌, ==→eq, ◌≡◌, refl, ◌∙◌, ap, subst, Bool, true, false, not, ◌&&◌, ◌||◌, Option, none, some,
  List, [], ◌∷◌, any, Bool-cases, inl, inr,
}
use rust_playground.TopCrates.{
  FeaturesLite, merge, Dependency, Resolved, Visits, member, insert_id, features_of, entry,
  is_active, visit_dep, visit_deps, visit_package, visit_all,
}

-- Whether a package is there with a mark.
abbrev pub marked : (FeaturesLite → Bool) → Option FeaturesLite → Bool
marked m none = false
marked m (some f) = m f

or-and_or : (s c a x : Bool) → ((s || (c && a)) || (c && x)) ≡ (s || (c && (a || x)))
or-and_or true c a x = refl
or-and_or false true a x = refl
or-and_or false false a x = refl

or_assoc : (a b c : Bool) → ((a || b) || c) ≡ (a || (b || c))
or_assoc true b c = refl
or_assoc false b c = refl

or-false : (a : Bool) → a ≡ (a || false)
or-false true = refl
or-false false = refl

or_comm : (a b : Bool) → (a || b) ≡ (b || a)
or_comm true true = refl
or_comm true false = refl
or_comm false true = refl
or_comm false false = refl

or-and_false : (a b : Bool) → a ≡ (a || (b && false))
or-and_false true b = refl
or-and_false false true = refl
or-and_false false false = refl

module _ (r : Resolved) (asked : Dependency → Bool) where
  -- Whether one of the dependencies on a package is active and asks for it.
  abbrev pub asks : ℕ → List Dependency → Bool
  asks i ds = any (λ d. is_active r i d && asked d) ds

  abbrev pub asks_in : ℕ → ℕ → List (ℕ × List Dependency) → Bool
  asks_in i j [] = false
  asks_in i j ((k, ds) ∷ rest) =
      ((k == j) && (not (r.is_excluded k) && asks i ds)) || asks_in i j rest

  abbrev pub wants : ℕ → ℕ → Bool
  wants i j = asks_in i j (r.deps i)

  -- What is seen of a package, if a dependency adds to it what it asks for.
  module _ (seen : ℕ → Visits → Bool)
      (seen_dep : (i k : ℕ) (d : Dependency) (v : Visits) (j : ℕ)
        → seen j (visit_dep r i k d v)
          ≡ (seen j v || ((k == j) && (is_active r i d && asked d)))) where
    visit_deps-seen :
        (i k : ℕ) (ds : List Dependency) (v : Visits) (j : ℕ)
        → seen j (visit_deps r i k ds v) ≡ (seen j v || ((k == j) && asks i ds))
    unfolding visit_deps
    visit_deps-seen i k [] v j = or-and_false (seen j v) (k == j)
    visit_deps-seen i k (d ∷ ds) v j =
        visit_deps-seen i k ds (visit_dep r i k d v) j
        ∙ ap (λ s. s || ((k == j) && asks i ds)) (seen_dep i k d v j)
        ∙ or-and_or (seen j v) (k == j) (is_active r i d && asked d) (asks i ds)

    visit_package-seen :
        (i : ℕ) (ps : List (ℕ × List Dependency)) (v : Visits) (j : ℕ)
        → seen j (visit_package r i ps v) ≡ (seen j v || asks_in i j ps)
    unfolding visit_package
    visit_package-seen i [] v j = or-false (seen j v)
    visit_package-seen i ((k, ds) ∷ ps) v j = elim (Bool-cases (r.is_excluded k)) [
      | inl e ↦ rw e (
          visit_package-seen i ps v j
          ∙ ap (λ s. s || asks_in i j ps) (or-and_false (seen j v) (k == j))
          ∙ or_assoc (seen j v) ((k == j) && false) (asks_in i j ps))
      | inr e ↦ rw e (
          visit_package-seen i ps (visit_deps r i k ds v) j
          ∙ ap (λ s. s || asks_in i j ps) (visit_deps-seen i k ds v j)
          ∙ or_assoc (seen j v) ((k == j) && asks i ds) (asks_in i j ps))
    ]

    pub visit_all-seen :
        (is : List ℕ) (v : Visits) (j : ℕ)
        → seen j (visit_all r is v) ≡ (seen j v || any (λ i. wants i j) is)
    unfolding visit_all
    visit_all-seen [] v j = or-false (seen j v)
    visit_all-seen (i ∷ is) v j =
        visit_all-seen is (visit_package r i (r.deps i) v) j
        ∙ ap (λ s. s || any (λ i. wants i j) is) (visit_package-seen i (r.deps i) v j)
        ∙ or_assoc (seen j v) (wants i j) (any (λ i. wants i j) is)

entry-marked :
    (m : FeaturesLite → Bool)
    → ((a b : FeaturesLite) → m (merge a b) ≡ (m a || m b))
    → (o : Option FeaturesLite) (f : FeaturesLite) → m (entry o f) ≡ (marked m o || m f)
entry-marked m joins none f = refl
entry-marked m joins (some old) f = joins old f

and-true : (a : Bool) → a ≡ (a && true)
and-true true = refl
and-true false = refl

member-insert_id : (k j : ℕ) (ks : List ℕ) → member j (insert_id k ks) ≡ (member j ks || (k == j))
member-insert_id k j ks = elim (Bool-cases (member k ks)) [
  | inr e ↦ rw e (or_comm (k == j) (member j ks))
  | inl e ↦ elim (Bool-cases (k == j)) [
    | inr f ↦ rw (e, f) (or-false (member j ks))
    | inl f ↦
        let there : member j ks ≡ true = subst (λ x. member x ks ≡ true) (==→eq k j f) e in
        rw (e, there) refl
  ]
]

-- What is marked, and what is to be visited next, are seen so.
pub visit_dep-marked :
    (r : Resolved) (m : FeaturesLite → Bool)
    → ((a b : FeaturesLite) → m (merge a b) ≡ (m a || m b))
    → (i k : ℕ) (d : Dependency) (v : Visits) (j : ℕ)
    → marked m ((visit_dep r i k d v).visited j)
      ≡ (marked m (v.visited j) || ((k == j) && (is_active r i d && m (features_of d))))
unfolding visit_dep
visit_dep-marked r m joins i k d v j = elim (Bool-cases (is_active r i d)) [
  | inr e ↦ rw e (or-and_false (marked m (v.visited j)) (k == j))
  | inl e ↦ elim (Bool-cases (k == j)) [
    | inr f ↦ rw (e, f) (or-false (marked m (v.visited j)))
    | inl f ↦
        rw (e, f)
          (ap (λ x. m (entry (v.visited x) (features_of d))) (==→eq k j f)
            ∙ entry-marked m joins (v.visited j) (features_of d))
  ]
]

pub visit_dep-member :
    (r : Resolved) (i k : ℕ) (d : Dependency) (v : Visits) (j : ℕ)
    → member j (visit_dep r i k d v).next_to_visit
      ≡ (member j v.next_to_visit || ((k == j) && (is_active r i d && true)))
unfolding visit_dep
visit_dep-member r i k d v j = elim (Bool-cases (is_active r i d)) [
  | inr e ↦ rw e (or-and_false (member j v.next_to_visit) (k == j))
  | inl e ↦ rw e (
      member-insert_id k j v.next_to_visit
      ∙ ap (λ x. member j v.next_to_visit || x) (and-true (k == j)))
]
