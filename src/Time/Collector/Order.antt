-- ===== src/Time/Collector/Order.antt =====
-- The collector sorts by timestamp, and stably.
use quent.Base.{
  ℕ, ◌+◌, ◌≤◌, ◌<◌, ◌≡◌, refl, sym, ap, ◌∙◌, inl, inr, false, some, List, [], ◌∷◌, ◌++◌, arith, leb,
  eqb, if◌then◌else◌, Bool-cases, Option-cases, nat_eq, pair_eq, option_eq, list_eq, keep, last?,
  keep-append, All, All-map,
}
use mathlib.Core.List.{append-nil, append_assoc, foldr}
use mathlib.Core.Path.{◌≡⟨◌⟩◌, ◌∎}
use quent.Time.Collector.{partition_point, insert_at, push, extend, collect}

module _ {ℓ} {T : Type ℓ} (timestamp : T → ℕ) where
  -- No item before this timestamp.
  abbrev pub From : ℕ → List T → Type 0
  From t items = All (λ x. t ≤ timestamp x) items

  abbrev pub IsOrdered : List T → Type 0
  IsOrdered [] = Unit
  IsOrdered (x ∷ xs) = From (timestamp x) xs × IsOrdered xs

  -- The insertion that the collector's two paths come to: behind the items that are not later.
  insert_stable : T → List T → List T
  insert_stable x [] = x ∷ []
  insert_stable x (y ∷ ys) =
      if leb (timestamp y) (timestamp x) then y ∷ insert_stable x ys else x ∷ y ∷ ys

  insert_at-partition_point :
      (x : T) (items : List T)
      → insert_at (partition_point (λ s. leb (timestamp s) (timestamp x)) items) x items
        ≡ insert_stable x items
  unfolding insert_stable
  insert_at-partition_point x [] = refl
  insert_at-partition_point x (y ∷ ys) = ground (arith, insert_at-partition_point x ys)

  From-last :
      (t : ℕ) (items : List T) (l : T) → From t items → last? items ≡ some l → t ≤ timestamp l
  From-last t [] l h e = cc
  From-last t (x ∷ []) l h e = ground arith
  From-last t (x ∷ y ∷ ys) l h e = From-last t (y ∷ ys) l h.1 e

  append-eq-insert_stable :
      (x l : T) (items : List T)
      → IsOrdered items
      → last? items ≡ some l
      → timestamp l ≤ timestamp x
      → items ++ x ∷ [] ≡ insert_stable x items
  unfolding insert_stable
  append-eq-insert_stable x l [] h e le = refl
  append-eq-insert_stable x l (y ∷ []) h e le = ground arith
  append-eq-insert_stable x l (y ∷ z ∷ zs) h e le =
      let before = From-last (timestamp y) (y ∷ z ∷ zs) l (omega arith, h.0) e in
      ground (arith, append-eq-insert_stable x l (z ∷ zs) h.1 e le)

  push-eq-insert_stable :
      (items : List T) (x : T) → IsOrdered items → push timestamp items x ≡ insert_stable x items
  unfolding push
  push-eq-insert_stable items x h = elim (Option-cases (last? items)) [
    | inl e ↦ rw e (insert_at-partition_point x items)
    | inr (l, e) ↦ elim (Bool-cases (leb (timestamp l) (timestamp x))) [
      | inl le ↦ rw (e, le) (append-eq-insert_stable x l items h e (ground arith))
      | inr gt ↦ rw (e, gt) (insert_at-partition_point x items)
    ]
  ]

  From-insert_stable :
      (t : ℕ) (x : T) (items : List T)
      → t ≤ timestamp x
      → From t items
      → From t (insert_stable x items)
  unfolding insert_stable
  From-insert_stable t x [] le h = (le, tt)
  From-insert_stable t x (y ∷ ys) le h = elim (Bool-cases (leb (timestamp y) (timestamp x))) [
    | inl e ↦ rw e (h.0, From-insert_stable t x ys le h.1)
    | inr e ↦ rw e (le, h)
  ]

  From-weaken : (s t : ℕ) (items : List T) → s ≤ t → From t items → From s items
  From-weaken s t items le h = All-map (λ x p. omega arith) items h

  IsOrdered-insert_stable :
      (x : T) (items : List T) → IsOrdered items → IsOrdered (insert_stable x items)
  unfolding insert_stable
  IsOrdered-insert_stable x [] h = (tt, tt)
  IsOrdered-insert_stable x (y ∷ ys) h = elim (Bool-cases (leb (timestamp y) (timestamp x))) [
    | inl e ↦
        rw e (
          From-insert_stable (timestamp y) x ys (ground arith) h.0,
          IsOrdered-insert_stable x ys h.1,
        )
    | inr e ↦
        let lt : timestamp x ≤ timestamp y = ground arith in
        rw e ((lt, From-weaken (timestamp x) (timestamp y) ys lt h.0), h)
  ]

  pub IsOrdered-push :
      (items : List T) (x : T) → IsOrdered items → IsOrdered (push timestamp items x)
  IsOrdered-push items x h =
      rw (push-eq-insert_stable items x h) (IsOrdered-insert_stable x items h)

  IsOrdered-extend :
      (items iter : List T) → IsOrdered items → IsOrdered (extend timestamp items iter)
  unfolding extend
  IsOrdered-extend items [] h = h
  IsOrdered-extend items (x ∷ iter) h =
      IsOrdered-extend (push timestamp items x) iter (IsOrdered-push items x h)

  -- The collected items are in the order of their timestamps, in whatever order they arrived.
  pub collect-IsOrdered : (iter : List T) → IsOrdered (collect timestamp iter)
  unfolding collect
  collect-IsOrdered iter = IsOrdered-extend [] iter tt

  abbrev pub at : ℕ → List T → List T
  at t = keep (λ x. eqb (timestamp x) t)

  -- Behind a timestamp nothing is stamped with it.
  at-From : (t s : ℕ) (items : List T) → t < s → From s items → at t items ≡ []
  at-From t s [] lt h = refl
  at-From t s (y ∷ ys) lt h =
      let apart : eqb (timestamp y) t ≡ false = ground arith in
      rw (apart, at-From t s ys lt h.1) refl

  at-insert_front :
      (t : ℕ) (x : T) (items : List T)
      → From (timestamp x + 1) items
      → at t (x ∷ items) ≡ at t items ++ at t (x ∷ [])
  at-insert_front t x items h = elim (Bool-cases (eqb (timestamp x) t)) [
    | inl e ↦ rw (e, at-From t (timestamp x + 1) items (ground arith) h) refl
    | inr e ↦ rw (e, append-nil) refl
  ]

  at-insert_stable :
      (t : ℕ) (x : T) (items : List T)
      → IsOrdered items
      → at t (insert_stable x items) ≡ at t items ++ at t (x ∷ [])
  unfolding insert_stable
  at-insert_stable t x [] h = refl
  at-insert_stable t x (y ∷ ys) h = elim (Bool-cases (leb (timestamp y) (timestamp x))) [
    | inl e ↦ elim (Bool-cases (eqb (timestamp y) t)) [
      | inl f ↦ rw (e, f) (ap (◌∷◌ y) (at-insert_stable t x ys h.1))
      | inr f ↦ rw (e, f) (at-insert_stable t x ys h.1)
    ]
    | inr e ↦
        let lt : timestamp x < timestamp y = ground arith in
        rw e (
          at-insert_front t x (y ∷ ys)
            (omega arith, From-weaken (timestamp x + 1) (timestamp y) ys (omega arith) h.0))
  ]

  at-extend :
      (t : ℕ) (items iter : List T)
      → IsOrdered items
      → at t (extend timestamp items iter) ≡ at t items ++ at t iter
  unfolding extend
  at-extend t items [] h = sym (append-nil _)
  at-extend t items (x ∷ iter) h =
      at t (extend timestamp (push timestamp items x) iter)
      ≡⟨ at-extend t (push timestamp items x) iter (IsOrdered-push items x h) ⟩
        at t (push timestamp items x) ++ at t iter
      ≡⟨ ap (λ l. at t l ++ at t iter) (push-eq-insert_stable items x h) ⟩
        at t (insert_stable x items) ++ at t iter
      ≡⟨ ap (λ l. l ++ at t iter) (at-insert_stable t x items h) ⟩
        (at t items ++ at t (x ∷ [])) ++ at t iter
      ≡⟨ append_assoc (at t items) (at t (x ∷ [])) (at t iter) ⟩
        at t items ++ (at t (x ∷ []) ++ at t iter)
      ≡⟨ ap (λ l. at t items ++ l) (sym (keep-append (λ y. eqb (timestamp y) t) (x ∷ []) iter)) ⟩
        at t items ++ at t (x ∷ iter) ∎

  -- The items of each timestamp are those that arrived with it, in the order of their arrival: none is
  -- lost, none is made up, and the sort is stable.
  pub collect-stable : (iter : List T) (t : ℕ) → at t (collect timestamp iter) ≡ at t iter
  unfolding collect
  collect-stable iter t = at-extend t [] iter tt

  -- What a fold that does not mind the order makes of the collected items.
  module _ {κ} {B : Type κ} (f : T → B → B) (z : B)
      (left_comm : (x y : T) (b : B) → f x (f y b) ≡ f y (f x b)) where
    foldr-cons_append :
        (x : T) (items iter : List T)
        → foldr f z (items ++ x ∷ iter) ≡ f x (foldr f z (items ++ iter))
    foldr-cons_append x [] iter = refl
    foldr-cons_append x (y ∷ ys) iter =
        ap (f y) (foldr-cons_append x ys iter) ∙ left_comm y x (foldr f z (ys ++ iter))

    foldr-insert_append :
        (x : T) (items iter : List T)
        → foldr f z (insert_stable x items ++ iter) ≡ f x (foldr f z (items ++ iter))
    unfolding insert_stable
    foldr-insert_append x [] iter = refl
    foldr-insert_append x (y ∷ ys) iter = elim (Bool-cases (leb (timestamp y) (timestamp x))) [
      | inl e ↦
          rw e (ap (f y) (foldr-insert_append x ys iter) ∙ left_comm y x (foldr f z (ys ++ iter)))
      | inr e ↦ rw e refl
    ]

    foldr-extend :
        (items iter : List T)
        → IsOrdered items
        → foldr f z (extend timestamp items iter) ≡ foldr f z (items ++ iter)
    unfolding extend
    foldr-extend items [] h = rw (append-nil items) refl
    foldr-extend items (x ∷ iter) h =
        foldr-extend (push timestamp items x) iter (IsOrdered-push items x h)
        ∙ ap (λ l. foldr f z (l ++ iter)) (push-eq-insert_stable items x h)
        ∙ foldr-insert_append x items iter
        ∙ sym (foldr-cons_append x items iter)

    pub foldr-collect : (iter : List T) → foldr f z (collect timestamp iter) ≡ foldr f z iter
    unfolding collect
    foldr-collect iter = foldr-extend [] iter tt
