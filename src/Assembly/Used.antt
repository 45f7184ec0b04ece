-- ===== src/Assembly/Used.antt =====
-- Which lines of assembly are kept.
use rust_playground.Base.{
  ◌≡◌, refl, sym, ap, subst, ◌∙◌, ◌↔◌, String, Bool, true, false, List, [], ◌∷◌, any, any-append,
  keep, str_eq, ◌||◌, ◌&&◌, ◌⊎◌, eq_iff, eq_refl, Bool-cases, inl, inr, if◌then◌else◌,
}
use rust_playground.Assembly.{
  LineType, opcode, label_decl, data_of, misc, has, Scan, Search, directly_used, contains_node,
  data_labels, used_labels, is_kept,
}

-- A data label leads to another through the references in its data.
pub data Leads (es : List (String × String)) : String → String → Type 0 where
  here : {a : String} → Leads es a a
  there :
      {a b c : String}
      → any (λ e. str_eq e.0 a && str_eq e.1 b) es ≡ true
      → Leads es b c
      → Leads es a c

-- What is relied on of `Dfs`, in one graph: it visits just the nodes that there is a way to.
pub record IsSearch (dfs : Search) (es : List (String × String)) : Type 0 where
  pub leads : (a b : String) → contains_node es a ≡ true → has b (dfs es a) ≡ true → Leads es a b
  pub visits : (a b : String) → contains_node es a ≡ true → Leads es a b → has b (dfs es a) ≡ true

-- A label that an opcode or a function declaration names, or that such a label leads to.
pub record IsUsed (s : Scan) (l : String) : Type 0 where
  pub from : String
  pub declared : has from s.labels ≡ true
  pub named : has from s.opcode_operands ≡ true
  pub leads_to : Leads s.label_graph from l

-- The lines that are to be kept.
abbrev pub IsKept : Scan → LineType → Type 0
IsKept s opcode = Unit
IsKept s misc = Unit
IsKept s (data_of l) = IsUsed s l
IsKept s (label_decl l) = IsUsed s l
IsKept s _ = ⊥

either : (a b : Bool) → (a || b) ≡ true → (a ≡ true) ⊎ (b ≡ true)
either true b h = inl refl
either false b h = inr h

or_right : (a : Bool) → (a || true) ≡ true
or_right true = refl
or_right false = refl

has-keep :
    (p : String → Bool) (l : String) (ls : List String)
    → (has l (keep p ls) ≡ true) ↔ ((has l ls ≡ true) × (p l ≡ true))
has-keep p l [] = (λ h. absurd cc, λ h. absurd (let x = h.0 in cc))
has-keep p l (k ∷ ls) = elim (Bool-cases (str_eq k l)) [
  | inl e ↦
      let same = (eq_iff k l).0 e in
      elim (Bool-cases (p k)) [
        | inl q ↦ (λ h. (rw e refl, ap p (sym same) ∙ q), λ h. rw (q, e) refl)
        | inr q ↦ (
          λ h. (rw e refl, ((has-keep p l ls).0 (rw q at h)).1),
          λ h. absurd (let x = sym (ap p same ∙ h.1) ∙ q in cc),
        )
      ]
  | inr e ↦ elim (Bool-cases (p k)) [
    | inl q ↦ (
      λ h. let (x, y) = (has-keep p l ls).0 (rw (q, e) at h) in (rw e x, y),
      λ h. rw (q, e) ((has-keep p l ls).1 (rw e at h.0, h.1)),
    )
    | inr q ↦ (
      λ h. let (x, y) = (has-keep p l ls).0 (rw q at h) in (rw e x, y),
      λ h. rw q ((has-keep p l ls).1 (rw e at h.0, h.1)),
    )
  ]
]

-- An edge from a label makes it a node.
edge-contains_node :
    (es : List (String × String)) (a b : String)
    → any (λ e. str_eq e.0 a && str_eq e.1 b) es ≡ true
    → contains_node es a ≡ true
edge-contains_node [] a b h = h
edge-contains_node (e ∷ es) a b h = elim (Bool-cases (str_eq e.0 a)) [
  | inl q ↦ rw q refl
  | inr q ↦ rw q (
      ap (λ x. str_eq e.1 a || x) (edge-contains_node es a b (rw q at h)) ∙ or_right (str_eq e.1 a))
]

-- There is no way out of what is no node.
stays_there :
    (es : List (String × String)) {a b : String} → contains_node es a ≡ false → Leads es a b → a ≡ b
stays_there es h here = refl
stays_there es {a} h (there {b} e l) = absurd (let x = sym (edge-contains_node es a b e) ∙ h in cc)

module _ (dfs : Search) (es : List (String × String)) (d : IsSearch dfs es) where
  -- What is found from some of the labels.
  data_labels-found :
      (l : String) (ls : List String)
      → has l (data_labels dfs es ls) ≡ true
      → (a : String) × (has a ls ≡ true) × Leads es a l
  unfolding data_labels
  data_labels-found l [] h = absurd cc
  data_labels-found l (k ∷ ls) h =
      elim (either (has l (if contains_node es k then dfs es k else []))
        (has l (data_labels dfs es ls))
        (sym (
            any-append (λ x. str_eq x l) (if contains_node es k then dfs es k else [])
              (data_labels dfs es ls))
          ∙ h)) [
            | inl q ↦ elim (Bool-cases (contains_node es k)) [
              | inl n ↦ (k, rw (eq_refl k) refl, d.leads k l n (rw n at q))
              | inr n ↦ absurd (let x = rw n at q in cc)
            ]
            | inr q ↦
                let (a, x, y) = data_labels-found l ls q in
                (a, ap (λ b. str_eq k a || b) x ∙ or_right (str_eq k a), y)
          ]

  data_labels-finds :
      (a l : String) (ls : List String)
      → contains_node es a ≡ true
      → has a ls ≡ true
      → Leads es a l
      → has l (data_labels dfs es ls) ≡ true
  unfolding data_labels
  data_labels-finds a l [] n h y = absurd cc
  data_labels-finds a l (k ∷ ls) n h y =
      any-append (λ x. str_eq x l) (if contains_node es k then dfs es k else [])
        (data_labels dfs es ls)
      ∙ elim (either (str_eq k a) (has a ls) h) [
        | inl q ↦
            let same = sym ((eq_iff k a).0 q) in
            let found : has l (if contains_node es k then dfs es k else []) ≡ true =
              subst (λ k. has l (if contains_node es k then dfs es k else []) ≡ true) same
                (rw n (d.visits a l n y)) in
            rw found refl
        | inr q ↦
            ap (λ b. has l (if contains_node es k then dfs es k else []) || b)
              (data_labels-finds a l ls n q y)
            ∙ or_right (has l (if contains_node es k then dfs es k else []))
      ]

module _ (dfs : Search) (s : Scan) (d : IsSearch dfs s.label_graph) where
  has-IsUsed : (l : String) → has l (used_labels dfs s) ≡ true → IsUsed s l
  unfolding used_labels directly_used
  has-IsUsed l h =
      let p : String → Bool = λ l. has l s.opcode_operands in
      elim (either (has l (keep p s.labels))
        (has l (data_labels dfs s.label_graph (keep p s.labels)))
        (sym (
            any-append (λ x. str_eq x l) (keep p s.labels)
              (data_labels dfs s.label_graph (keep p s.labels)))
          ∙ h)) [
            | inl q ↦
                let (x, y) = (has-keep p l s.labels).0 q in
                record { from = l; declared = x; named = y; leads_to = here }
            | inr q ↦
                let (a, x, y) = data_labels-found dfs s.label_graph d l (keep p s.labels) q in
                let (u, v) = (has-keep p a s.labels).0 x in
                record { from = a; declared = u; named = v; leads_to = y }
          ]

  IsUsed-has : (l : String) → IsUsed s l → has l (used_labels dfs s) ≡ true
  unfolding used_labels directly_used
  IsUsed-has l u =
      let p : String → Bool = λ l. has l s.opcode_operands in
      let direct = (has-keep p u.from s.labels).1 (u.declared, u.named) in
      any-append (λ x. str_eq x l) (keep p s.labels)
        (data_labels dfs s.label_graph (keep p s.labels))
      ∙ elim (Bool-cases (contains_node s.label_graph u.from)) [
        | inl n ↦
            ap (λ b. has l (keep p s.labels) || b)
              (data_labels-finds dfs s.label_graph d u.from l (keep p s.labels) n direct u.leads_to)
            ∙ or_right (has l (keep p s.labels))
        | inr n ↦
            let same = stays_there s.label_graph n u.leads_to in
            let found : has l (keep p s.labels) ≡ true =
              subst (λ l. has l (keep p s.labels) ≡ true) same direct in
            rw found refl
      ]

pub is_kept_iff :
    (dfs : Search) (s : Scan) (t : LineType)
    → IsSearch dfs s.label_graph
    → (is_kept (used_labels dfs s) t ≡ true) ↔ IsKept s t
unfolding is_kept
is_kept_iff dfs s opcode d = (λ h. tt, λ h. refl)
is_kept_iff dfs s misc d = (λ h. tt, λ h. refl)
is_kept_iff dfs s (data_of l) d = (has-IsUsed dfs s d l, IsUsed-has dfs s d l)
is_kept_iff dfs s (label_decl l) d = (has-IsUsed dfs s d l, IsUsed-has dfs s d l)
is_kept_iff dfs s _ d = (λ h. cc, λ h. absurd h)
