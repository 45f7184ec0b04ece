-- ===== src/Request/Setup.antt =====
-- What the project directory holds when a request's file operations are done, in whatever order
-- they were done (`delete_files` and `write_files` of `LowerRequest`, and `do_request`, in
-- compiler/base/orchestrator/src/coordinator.rs).
use mathlib.Core.Logic.Or
use mathlib.Core.Logic.{∥∥₁_elim}
use mathlib.Core.List.{
  Mem, mem-cons, mem-cons_self, mem-cons_of_mem, not-mem-nil, mem-append, mem-map, mem-map_of_mem,
  Perm,
}
use mathlib.Core.List.Perm
use text.Mathlib.Text.{◌==◌ as str_eq}
use rust_playground.Base.{
  ℕ, String, ◌≡◌, refl, sym, ap, subst, ◌∙◌, ◌≢◌, ◌↔◌, inl, inr, true, not, Option, none, some,
  List, [], ◌∷◌, map, eq_iff, Bool-cases, keep, mem-keep,
}
use rust_playground.Message.{DeleteFileRequest, WriteFileRequest}
use rust_playground.Request.{Code, CodeFile, CrateType}
use rust_playground.Request.Sources.{
  files, candidates, remove_names, delete_requests, write_requests, into_bytes,
}
use rust_playground.Request.Files.{
  Directory, FileOperation, delete, write, path_of, content_of, perform_all, operations,
  perform_all_at, perform_all_off,
}

-- No file of the list has this name.
abbrev pub IsAbsent : String → List CodeFile → Type 0
IsAbsent p fs = (f : CodeFile) → Mem f fs → f.name ≢ p

str_ne : (s t : String) → (not (str_eq s t) ≡ true) ↔ (s ≢ t)
str_ne s t = elim (Bool-cases (str_eq s t)) [
  | inl e ↦ (λ h. absurd (cc), λ h. absurd (h ((eq_iff s t).0 e)))
  | inr e ↦ (λ h q. cc ((eq_iff s t).1 q), λ h. rw e)
]

-- Removing the names of the files leaves the paths that are not among them.
mem-remove_names :
    (fs : List CodeFile) (ps : List String) (p : String)
    → Mem p (remove_names fs ps) ↔ (Mem p ps × IsAbsent p fs)
unfolding remove_names
mem-remove_names [] ps p = (λ m. (m, λ f n. absurd (not-mem-nil n)), λ h. h.0)
mem-remove_names (f ∷ fs) ps p = (
  λ m.
      let (kept, away) = (mem-remove_names fs (keep (λ q. not (str_eq q f.name)) ps) p).0 m in
      let (there, differs) = (mem-keep (λ q. not (str_eq q f.name)) ps).0 kept in
      (
        there,
        λ g n e.
            Or.elim (λ x y. absurd x) (mem-cons.0 n)
              (λ q. (str_ne p f.name).0 differs (sym e ∙ ap (λ (c : CodeFile). c.name) q))
              (λ r. away g r e),
      ),
  λ h. (mem-remove_names fs (keep (λ q. not (str_eq q f.name)) ps) p).1 (
    (mem-keep (λ q. not (str_eq q f.name)) ps).1
        (h.0, (str_ne p f.name).1 (λ e. h.1 f mem-cons_self (sym e))),
    λ g n. h.1 g (mem-cons_of_mem f n),
  ),
)

-- The contract of `LowerRequest`: no request deletes a file that it writes.
pub delete-write_disjoint :
    (c : Code) (k : CrateType) (d : DeleteFileRequest) (w : WriteFileRequest)
    → Mem d (delete_requests c k)
    → Mem w (write_requests c k)
    → d.path ≢ w.path
unfolding delete_requests write_requests
delete-write_disjoint c k d w md mw e =
    ∥∥₁_elim (mem-map.0 md) (λ x y. absurd x)
      λ (p, mp, ep).
        ∥∥₁_elim (mem-map.0 mw) (λ x y. absurd x)
          λ (f, mf, ef). ((mem-remove_names (files c k) candidates p).0 mp).1 f mf (
            ap (λ (r : WriteFileRequest). r.path) ef
            ∙ sym e
            ∙ sym (ap (λ (r : DeleteFileRequest). r.path) ep))

abbrev pub writes_file : CodeFile → FileOperation
writes_file f = write (record { path = f.name; content = into_bytes f.content })

abbrev deletes_path : String → FileOperation
deletes_path p = delete (record { path = p })

module _ (c : Code) (k : CrateType) where
  mem-writes : {f : CodeFile} → Mem f (files c k) → Mem (writes_file f) (operations c k)
  unfolding operations write_requests
  mem-writes {f} m = mem-append.1 (Or.inr (mem-map_of_mem write (mem-map_of_mem _ m)))

  mem-deletes :
      {p : String}
      → Mem p candidates
      → IsAbsent p (files c k)
      → Mem (deletes_path p) (operations c k)
  unfolding operations delete_requests
  mem-deletes {p} m h = mem-append.1 (
      Or.inl (
        mem-map_of_mem delete
          (mem-map_of_mem _ ((mem-remove_names (files c k) candidates p).1 (m, h)))))

  -- An operation writes a file of the request, or deletes a candidate that the request lacks.
  operation_cases {ℓ} :
      {P : Type ℓ} (o : FileOperation)
      → IsProp P
      → Mem o (operations c k)
      → ((f : CodeFile) → Mem f (files c k) → o ≡ writes_file f → P)
      → ((p : String) → Mem p candidates → IsAbsent p (files c k) → o ≡ deletes_path p → P)
      → P
  unfolding operations delete_requests write_requests
  operation_cases o prop m written deleted =
      Or.elim prop
        ((mem-append {s = map delete (delete_requests c k)} {t = map write (write_requests c k)}).0
          m)
        (λ n. ∥∥₁_elim ((mem-map {f = delete}).0 n) prop λ (d, md, ed).
          ∥∥₁_elim (mem-map.0 md) prop λ (p, mp, ep).
            let (there, away) = (mem-remove_names (files c k) candidates p).0 mp in
            deleted p there away (sym ed ∙ ap delete (sym ep)))
        (λ n. ∥∥₁_elim ((mem-map {f = write}).0 n) prop λ (w, mw, ew).
          ∥∥₁_elim (mem-map.0 mw) prop λ (f, mf, ef). written f mf (sym ew ∙ ap write (sym ef)))

-- What a request leaves in a directory: its own files, none of the other candidates, and all else
-- as it was.
pub record IsSetUp (c : Code) (k : CrateType) (before after : Directory) : Type 0 where
  pub own :
      (f : CodeFile)
      → Mem f (files c k)
      → ((g : CodeFile) → Mem g (files c k) → g.name ≡ f.name → g.content ≡ f.content)
      → after f.name ≡ some (into_bytes f.content)
  pub stale : (p : String) → Mem p candidates → IsAbsent p (files c k) → after p ≡ none
  pub other : (p : String) → ¬ Mem p candidates → IsAbsent p (files c k) → after p ≡ before p

module _ (c : Code) (k : CrateType) (os : List FileOperation) (d : Directory)
    (order : Perm os (operations c k)) where
  sent : {o : FileOperation} → Mem o (operations c k) → Mem o os
  sent = (Perm.mem_iff order).1

  performed : {o : FileOperation} → Mem o os → Mem o (operations c k)
  performed = (Perm.mem_iff order).0

Bytes-set : IsSet (Option (List ℕ))
Bytes-set = hlevel

-- Whatever the order in which the worker carries the operations out, the directory is set up: a
-- file whose name is given one content holds it, a candidate that is no file of the request is
-- gone, and no other path has changed.
pub perform_all-IsSetUp :
    (c : Code) (k : CrateType) (os : List FileOperation) (d : Directory)
    → Perm os (operations c k)
    → IsSetUp c k d (perform_all os d)
perform_all-IsSetUp c k os d order = record {
  own = λ f m one.
      perform_all_at f.name (writes_file f) os d
        (λ q mq e.
          operation_cases c k q (Bytes-set _ _) (performed c k os d order mq)
            (λ g mg eg.
              ap content_of eg ∙ ap (λ t. some (into_bytes t)) (one g mg (sym (ap path_of eg) ∙ e)))
            (λ p mp away ep. absurd (away f m (sym (sym (ap path_of ep) ∙ e)))))
        (sent c k os d order (mem-writes c k m)) refl;
  stale = λ p m away.
      perform_all_at p (deletes_path p) os d
        (λ q mq e.
          operation_cases c k q (Bytes-set _ _) (performed c k os d order mq)
            (λ g mg eg. absurd (away g mg (sym (ap path_of eg) ∙ e)))
            (λ r mr _ er. ap content_of er))
        (sent c k os d order (mem-deletes c k m away)) refl;
  other = λ p m away. perform_all_off p os d λ q mq e.
      operation_cases c k q (λ x y. absurd x) (performed c k os d order mq)
        (λ g mg eg. away g mg (sym (ap path_of eg) ∙ e))
        (λ r mr _ er. m (subst (λ t. Mem t candidates) (sym (ap path_of er) ∙ e) mr));
}
