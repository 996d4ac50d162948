-- ===== src/Db/Sort.antt =====
-- The sort of a run of equal scores: it orders the run by the times, and lists the same entries.
use mathlib.Core.List.{Perm}
use mathlib.Core.List.Perm
use my_mmoproject.Base.{ℕ, ◌≤◌, inl, inr, List, [], ◌∷◌, ◌++◌, ltb, arith, Bool-cases}
use my_mmoproject.Db.{insert_entry, sort_entries}

abbrev pub Entry : Type 0
Entry = ℕ × ℕ

abbrev pub All : (Entry → Type 0) → List Entry → Type 0
All P [] = Unit
All P (e ∷ es) = P e × All P es

pub All-append : (P : Entry → Type 0) (l r : List Entry) → All P l → All P r → All P (l ++ r)
All-append P [] r a b = b
All-append P (e ∷ l) r a b = (a.0, All-append P l r a.1 b)

pub All-map :
    {P Q : Entry → Type 0} (l : List Entry) → ((e : Entry) → P e → Q e) → All P l → All Q l
All-map [] f a = tt
All-map (e ∷ l) f a = (f e a.0, All-map l f a.1)

module _ (time : ℕ → ℕ) where
  unfoldable pub SortedBy : List Entry → Type 0
  SortedBy [] = Unit
  SortedBy (e ∷ es) = All (λ d. time e.0 ≤ time d.0) es × SortedBy es

  pub All-insert :
      (P : Entry → Type 0) (e : Entry) (es : List Entry)
      → P e
      → All P es
      → All P (insert_entry time e es)
  unfolding insert_entry
  All-insert P e [] p a = (p, tt)
  All-insert P e (d ∷ ds) p a = elim (Bool-cases (ltb (time d.0) (time e.0))) [
    | inl later ↦ rw later (a.0, All-insert P e ds p a.1)
    | inr first ↦ rw first (p, a)
  ]

  pub All-sort : (P : Entry → Type 0) (es : List Entry) → All P es → All P (sort_entries time es)
  unfolding sort_entries
  All-sort P [] a = tt
  All-sort P (e ∷ es) a = All-insert P e (sort_entries time es) a.0 (All-sort P es a.1)

  pub insert-SortedBy :
      (e : Entry) (es : List Entry) → SortedBy es → SortedBy (insert_entry time e es)
  unfolding insert_entry SortedBy
  insert-SortedBy e [] s = (tt, tt)
  insert-SortedBy e (d ∷ ds) s = elim (Bool-cases (ltb (time d.0) (time e.0))) [
    | inl later ↦
        rw later
          (All-insert (λ x. time d.0 ≤ time x.0) e ds (ground arith) s.0, insert-SortedBy e ds s.1)
    | inr first ↦ rw first ((ground arith, All-map ds (λ x le. ground (arith, le, first)) s.0), s)
  ]

  pub sort-SortedBy : (es : List Entry) → SortedBy (sort_entries time es)
  unfolding sort_entries SortedBy
  sort-SortedBy [] = tt
  sort-SortedBy (e ∷ es) = insert-SortedBy e (sort_entries time es) (sort-SortedBy es)

  pub insert-perm : (e : Entry) (es : List Entry) → Perm (insert_entry time e es) (e ∷ es)
  unfolding insert_entry
  insert-perm e [] = Perm.rfl
  insert-perm e (d ∷ ds) = elim (Bool-cases (ltb (time d.0) (time e.0))) [
    | inl later ↦ rw later (Perm.trans (Perm.cons d (insert-perm e ds)) (Perm.swap e d ds))
    | inr first ↦ rw first Perm.rfl
  ]

  pub sort-perm : (es : List Entry) → Perm (sort_entries time es) es
  unfolding sort_entries
  sort-perm [] = Perm.rfl
  sort-perm (e ∷ es) =
      Perm.trans (insert-perm e (sort_entries time es)) (Perm.cons e (sort-perm es))
