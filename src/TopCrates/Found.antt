-- ===== src/TopCrates/Found.antt =====
-- Which crates the walk finds, and with which features.
use rust_playground.Base.{
  ℕ, zero, suc, String, ◌<◌, ◌==◌, ==-refl, ==→eq, ◌≡◌, refl, sym, ◌∙◌, subst, ◌↔◌, ◌⊎◌, inl, inr,
  Bool, true, false, ◌||◌, some, List, [], ◌∷◌, any, Map, empty_map, arith, some-injective,
}
use rust_playground.TopCrates.{
  FeaturesLite, merge, Dependency, Resolved, Visits, member, features_of, walk, visit_all,
}
use rust_playground.TopCrates.Walk.{
  marked, wants, visit_all-seen, visit_dep-marked, visit_dep-member,
}

or-cases : (a b : Bool) → (a || b) ≡ true → (a ≡ true) ⊎ (b ≡ true)
or-cases true b h = inl refl
or-cases false b h = inr h

or-right : (a b : Bool) → b ≡ true → (a || b) ≡ true
or-right true b h = refl
or-right false b h = h

any-member :
    (p : ℕ → Bool) (xs : List ℕ) → any p xs ≡ true → (x : ℕ) × (member x xs ≡ true) × (p x ≡ true)
any-member p [] h = absurd (cc)
any-member p (x ∷ xs) h = elim (or-cases (p x) (any p xs) h) [
  | inl e ↦ (x, rw (==-refl x) refl, e)
  | inr e ↦ let (y, m, f) = any-member p xs e in (y, or-right (x == y) (member y xs) m, f)
]

member-any :
    (p : ℕ → Bool) (x : ℕ) (xs : List ℕ) → member x xs ≡ true → p x ≡ true → any p xs ≡ true
member-any p x [] h e = absurd (cc)
member-any p x (y ∷ xs) h e = elim (or-cases (y == x) (member x xs) h) [
  | inl f ↦ let g : p y ≡ true = subst (λ z. p z ≡ true) (sym (==→eq y x f)) e in rw g refl
  | inr f ↦ or-right (p y) (any p xs) (member-any p x xs f e)
]

-- An active dependency of one package on another that is not excluded.
abbrev pub Edge : Resolved → ℕ → ℕ → Type 0
Edge r i j = wants r (λ d. true) i j ≡ true

-- A chain of them.
pub data Leads (r : Resolved) : ℕ → ℕ → Type 0 where
  here : (i : ℕ) → Leads r i i
  from : {i k j : ℕ} → Edge r i k → Leads r k j → Leads r i j

-- A package that can be reached from the roots asks for it.
abbrev pub Found : Resolved → List ℕ → (Dependency → Bool) → ℕ → Type 0
Found r roots asked j =
    (i l : ℕ) × (member i roots ≡ true) × Leads r i l × (wants r asked l j ≡ true)

module _ (r : Resolved) where
  abbrev round : List ℕ → Map FeaturesLite → Visits
  round to_visit visited = visit_all r to_visit (record { visited = visited; next_to_visit = [] })

  round-member :
      (is : List ℕ) (visited : Map FeaturesLite) (j : ℕ)
      → member j (round is visited).next_to_visit ≡ any (λ i. wants r (λ d. true) i j) is
  round-member is visited j =
      visit_all-seen r (λ d. true) (λ k v. member k v.next_to_visit) (visit_dep-member r) is _ j

  module _ (m : FeaturesLite → Bool)
      (joins : (a b : FeaturesLite) → m (merge a b) ≡ (m a || m b)) where
    abbrev asked : Dependency → Bool
    asked d = m (features_of d)

    round-marked :
        (is : List ℕ) (visited : Map FeaturesLite) (j : ℕ)
        → marked m ((round is visited).visited j)
          ≡ (marked m (visited j) || any (λ i. wants r asked i j) is)
    round-marked is visited j =
        visit_all-seen r asked (λ k v. marked m (v.visited k)) (visit_dep-marked r m joins) is _ j

    walk-keeps :
        (fuel : ℕ) (is : List ℕ) (visited end : Map FeaturesLite) (j : ℕ)
        → walk r fuel is visited ≡ some end
        → marked m (visited j) ≡ true
        → marked m (end j) ≡ true
    unfolding walk
    walk-keeps zero [] visited end j h e = subst (λ x. marked m (x j) ≡ true) (some-injective h) e
    walk-keeps zero (i ∷ is) visited end j h e = absurd (cc)
    walk-keeps (suc fuel) [] visited end j h e =
        subst (λ x. marked m (x j) ≡ true) (some-injective h) e
    walk-keeps (suc fuel) (i ∷ is) visited end j h e =
        walk-keeps fuel _ _ end j h (round-marked (i ∷ is) visited j ∙ rw e refl)

    walk_complete :
        (fuel : ℕ) (is : List ℕ) (visited end : Map FeaturesLite) (j : ℕ)
        → walk r fuel is visited ≡ some end
        → Found r is asked j
        → marked m (end j) ≡ true
    unfolding walk
    walk_complete fuel [] visited end j h (i, l, a, p, w) = absurd (cc)
    walk_complete zero (k ∷ is) visited end j h f = absurd (cc)
    walk_complete (suc fuel) (k ∷ is) visited end j h (i, l, a, here _, w) =
        walk-keeps fuel _ _ end j h (
          round-marked (k ∷ is) visited j
          ∙ or-right _ _ (member-any (λ x. wants r asked x j) i (k ∷ is) a w))
    walk_complete (suc fuel) (k ∷ is) visited end j h (i, l, a, from {k = q} e p, w) =
        walk_complete fuel _ _ end j h (
          q,
          l,
          round-member (k ∷ is) visited q
              ∙ member-any (λ x. wants r (λ d. true) x q) i (k ∷ is) a e,
          p,
          w,
        )

    walk_sound :
        (fuel : ℕ) (is : List ℕ) (visited end : Map FeaturesLite) (j : ℕ)
        → walk r fuel is visited ≡ some end
        → marked m (end j) ≡ true
        → (marked m (visited j) ≡ true) ⊎ Found r is asked j
    unfolding walk
    walk_sound zero [] visited end j h e =
        inl (subst (λ x. marked m (x j) ≡ true) (sym (some-injective h)) e)
    walk_sound zero (i ∷ is) visited end j h e = absurd (cc)
    walk_sound (suc fuel) [] visited end j h e =
        inl (subst (λ x. marked m (x j) ≡ true) (sym (some-injective h)) e)
    walk_sound (suc fuel) (i ∷ is) visited end j h e = elim (walk_sound fuel _ _ end j h e) [
      | inl f ↦ elim (or-cases _ _ (sym (round-marked (i ∷ is) visited j) ∙ f)) [
        | inl g ↦ inl g
        | inr g ↦
            let (x, a, w) = any-member (λ x. wants r asked x j) (i ∷ is) g in
            inr (x, x, a, here x, w)
      ]
      | inr (q, l, a, p, w) ↦
          let (x, b, f) =
            any-member (λ x. wants r (λ d. true) x q) (i ∷ is)
              (sym (round-member (i ∷ is) visited q) ∙ a) in
          inr (x, l, b, from f p, w)
    ]

    walk-Found :
        (fuel : ℕ) (roots : List ℕ) (end : Map FeaturesLite) (j : ℕ)
        → walk r fuel roots empty_map ≡ some end
        → (marked m (end j) ≡ true) ↔ Found r roots asked j
    walk-Found fuel roots end j h = (
      λ e. elim (walk_sound fuel roots empty_map end j h e) [ inl n ↦ absurd (cc) | inr f ↦ f ],
      walk_complete fuel roots empty_map end j h,
    )

  -- Where dependencies go down in rank, the fuel is enough that is above the ranks at the start.
  module _ (rank : ℕ → ℕ) (acyclic : (i j : ℕ) → Edge r i j → rank j < rank i) where
    walk-ends :
        (fuel : ℕ) (is : List ℕ) (visited : Map FeaturesLite)
        → ((i : ℕ) → member i is ≡ true → rank i < fuel)
        → (end : Map FeaturesLite) × (walk r fuel is visited ≡ some end)
    unfolding walk
    walk-ends zero [] visited below = (visited, refl)
    walk-ends (suc fuel) [] visited below = (visited, refl)
    walk-ends zero (i ∷ is) visited below =
        absurd (let x = below i (rw (==-refl i) refl) in omega arith)
    walk-ends (suc fuel) (i ∷ is) visited below = walk-ends fuel _ _ (λ j a.
        let (x, b, e) =
          any-member (λ x. wants r (λ d. true) x j) (i ∷ is)
            (sym (round-member (i ∷ is) visited j) ∙ a) in
        let f = below x b in let g = acyclic x j e in omega arith)

    -- If dependencies have no cycle, the walk ends. It has visited just the packages that an active
    -- dependency of a root, or of what active dependencies lead to from a root, asks for, and has
    -- given each the features that these dependencies ask for together, the default ones if one
    -- does.
    pub walk-finds :
        (fuel : ℕ) (roots : List ℕ)
        → ((i : ℕ) → member i roots ≡ true → rank i < fuel)
        → (end : Map FeaturesLite) × (walk r fuel roots empty_map ≡ some end)
          × ((j : ℕ) → (marked (λ f. true) (end j) ≡ true) ↔ Found r roots (λ d. true) j)
          × ((j : ℕ) (n : String)
              → (marked (λ f. f.features n) (end j) ≡ true) ↔ Found r roots (λ d. d.features n) j)
          × ((j : ℕ)
              → (marked (λ f. f.uses_default_features) (end j) ≡ true)
                ↔ Found r roots (λ d. d.uses_default_features) j)
    walk-finds fuel roots below =
        let (end, h) = walk-ends fuel roots empty_map below in
        (
          end,
          h,
          λ j. walk-Found (λ f. true) (λ a b. refl) fuel roots end j h,
          λ j n. walk-Found (λ f. f.features n) (λ a b. unfold merge in refl) fuel roots end j h,
          λ j.
              walk-Found (λ f. f.uses_default_features) (λ a b. unfold merge in refl) fuel roots end
                j h,
        )
