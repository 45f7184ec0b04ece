-- ===== src/Gist/Files.antt =====
-- The files of a gist read and taken out by name, whatever order they come in.
use mathlib.Core.List.{Mem, mem-cons, not-mem-nil, Perm, filter}
use mathlib.Core.List.Perm
use mathlib.Core.Logic.Or
use rust_playground.Base.{
  Text, text_eq, text_eq_refl, text_eq→eq, ◌≡◌, ◌∙◌, refl, ap, not, keep, All, sym, subst, Bool,
  true, false, Bool-cases, inl, inr, some, List, [], ◌∷◌,
}
use rust_playground.Gist.{RemoteFile, RemoteFiles, find_file, without_file}

module _ {ℓ} {A : Type ℓ} (p : A → Bool) where
  is_true : (b : Bool) → Dec (b ≡ true)
  is_true true = yes refl
  is_true false = no (λ h. cc)

  passes : (a : A) → Dec (p a ≡ true)
  passes a = is_true (p a)

  keep-eq-filter : (xs : List A) → keep p xs ≡ filter passes xs
  unfolding passes is_true
  keep-eq-filter [] = refl
  keep-eq-filter (x ∷ xs) = elim (Bool-cases (p x)) [
    | inl e ↦ rw (e, keep-eq-filter xs)
    | inr e ↦ rw (e, keep-eq-filter xs)
  ]

  keep-perm : {xs ys : List A} → Perm xs ys → Perm (keep p xs) (keep p ys)
  keep-perm {xs} {ys} h = rw (keep-eq-filter xs, keep-eq-filter ys) (Perm.filter passes h)

  keep-All : (xs : List A) → All (λ x. p x ≡ true) xs → keep p xs ≡ xs
  keep-All [] h = refl
  keep-All (x ∷ xs) h = rw (h.0, keep-All xs h.1)

-- Entries of other names.
abbrev pub Others : Text → RemoteFiles → Type 0
Others k fs = All (λ e. not (text_eq e.0 k) ≡ true) fs

-- A name that is there is found, with a file that it is there with.
find_file-mem {ℓ} :
    {P : Type ℓ} {k : Text} {f : RemoteFile} (fs : RemoteFiles)
    → IsProp P
    → Mem (k, f) fs
    → ((g : RemoteFile) → Mem (k, g) fs → find_file k fs ≡ some g → P)
    → P
find_file-mem [] i m use_it = absurd (not-mem-nil m)
find_file-mem {P} {k} {f} ((j, w) ∷ fs) i m use_it = elim (Bool-cases (text_eq j k)) [
  | inl e ↦ use_it w (mem-cons.1 (Or.inl (ap (λ x. (x, w)) (sym (text_eq→eq j k e))))) (rw e refl)
  | inr e ↦
      Or.elim i (mem-cons.0 m)
        (λ q.
          absurd (let r = text_eq_refl k in let s = ap (λ (x : Text × RemoteFile). x.0) q in cc))
        (λ r. find_file-mem fs i r (λ g n h. use_it g (mem-cons.1 (Or.inr n)) (rw e h)))
]

Others-mem : (k : Text) (g : RemoteFile) (fs : RemoteFiles) → Others k fs → ¬ Mem (k, g) fs
Others-mem k g [] o m = not-mem-nil m
Others-mem k g (e ∷ fs) o m =
    Or.elim (λ a. absurd a) (mem-cons.0 m)
      (λ q.
        let r = text_eq_refl k in
        let s = ap (λ (x : Text × RemoteFile). x.0) q in
        let t = subst (λ x. not (text_eq x k) ≡ true) (sym s) o.0 in cc)
      (λ r. Others-mem k g fs o.1 r)

module _ {k : Text} {f : RemoteFile} {fs rest : RemoteFiles} (h : Perm fs ((k, f) ∷ rest)) where
  -- The one file of a name is found.
  pub find_file-perm {ℓ} :
      {P : Type ℓ} → Others k rest → IsProp P → (find_file k fs ≡ some f → P) → P
  find_file-perm {P} o i use_it =
      find_file-mem fs i ((Perm.mem_iff h).1 (mem-cons.1 (Or.inl refl))) (λ g m e.
        Or.elim i (mem-cons.0 ((Perm.mem_iff h).0 m))
          (λ q. use_it (e ∙ ap (λ (x : Text × RemoteFile). some x.1) q))
          (λ r. absurd (Others-mem k g rest o r)))

  -- Without it the others are left.
  pub without_file-perm : Others k rest → Perm (without_file k fs) rest
  without_file-perm o =
      let p : Text × RemoteFile → Bool = λ x. not (text_eq x.0 k) in
      let e : keep p ((k, f) ∷ rest) ≡ rest = rw (text_eq_refl k) (keep-All p rest o) in
      subst (λ r. Perm (without_file k fs) r) e (keep-perm p h)
