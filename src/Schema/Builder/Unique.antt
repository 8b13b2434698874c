-- ===== src/Schema/Builder/Unique.antt =====
-- A map is collected exactly where no key comes twice, and it keeps the order of the values.
use quent.Base.{
  ◌≡◌, refl, sym, ap, ◌∙◌, ◌↔◌, inl, inr, Bool, true, false, not, ◌&&◌, ◌||◌, Option, none, some,
  List, [], ◌∷◌, ◌++◌, map, arith, Option-cases, Eq, nat_eq, pair_eq, option_eq, list_eq,
}
use mathlib.Core.List.{append_assoc, append-nil}
use quent.Base.Text.{Text}
use quent.Base.Assoc.{Assoc, lookup}
use quent.Base.Set.{member, distinct}
use quent.Base.Result.{Result, ok}
use quent.Schema.Builder.{BuilderError, if_vacant, collect_from, collect_unique}
use quent.Schema.Builder.Annotations.{is_empty, if_named_vacant, collect_named_from, collect_named}
use quent.Schema.Elements.{is_some}

-- Values with their keys.
abbrev pub entries {ℓ κ} : {K : Type ℓ} {V : Type κ} → (V → K) → List V → Assoc K V
entries key [] = []
entries key (v ∷ vs) = (key v, v) ∷ entries key vs

module _ {ℓ κ} {K : Type ℓ} {V : Type κ} ⦃e : Eq K⦄ where
  -- None of the keys is one of the map's.
  abbrev pub fresh : Assoc K V → List K → Bool
  fresh m [] = true
  fresh m (k ∷ ks) = not (is_some (lookup k m)) && fresh m ks

  found-snoc :
      (m : Assoc K V) (k j : K) (v : V)
      → is_some (lookup j (m ++ (k, v) ∷ [])) ≡ (is_some (lookup j m) || e.same k j)
  unfolding lookup
  found-snoc [] k j v = ground arith
  found-snoc ((i, w) ∷ m) k j v = ground (arith, found-snoc m k j v)

  fresh-snoc :
      (m : Assoc K V) (k : K) (v : V) (ks : List K)
      → fresh (m ++ (k, v) ∷ []) ks ≡ (fresh m ks && not (member k ks))
  unfolding lookup member
  fresh-snoc m k v [] = refl
  fresh-snoc m k v (j ∷ ks) =
      let found = found-snoc m k j v in
      let rest = fresh-snoc m k v ks in ground (arith, e.same_iff j k, e.same_iff k j)

  if_vacant-ok :
      (show : K → Text) (key : V → K) (o : Option V) (k : K)
      (rest : Result (Assoc K V) BuilderError) (n : Assoc K V)
      → (if_vacant show key o k rest ≡ ok n) ↔ ((is_some o ≡ false) × (rest ≡ ok n))
  if_vacant-ok show key none k rest n = (λ h. (refl, h), λ h. h.1)
  if_vacant-ok show key (some v) k rest n = (λ h. cc, λ h. cc)

  pub collect_from-ok :
      (show : K → Text) (key : V → K) (m n : Assoc K V) (vs : List V)
      → (collect_from show key m vs ≡ ok n)
        ↔ ((fresh m (map key vs) && distinct (map key vs) ≡ true) × (m ++ entries key vs ≡ n))
  unfolding collect_from member
  collect_from-ok show key m n [] =
      let all = append-nil m in (λ h. (refl, all ∙ cc), λ h. ap ok (sym all ∙ h.1))
  collect_from-ok show key m n (v ∷ vs) =
      let ks = map key vs in
      let rest = collect_from show key (m ++ (key v, v) ∷ []) vs in
      let vacant = if_vacant-ok show key (lookup (key v) m) (key v) rest n in
      let more = collect_from-ok show key (m ++ (key v, v) ∷ []) n vs in
      let snoc = fresh-snoc m (key v) v ks in
      let moved = append_assoc m ((key v, v) ∷ []) (entries key vs) in
      (
        λ h.
            let a = vacant.0 h in
            let b = more.0 a.1 in let ok = b.0 in (ground arith, sym moved ∙ b.1),
        λ h.
            let unique : fresh (m ++ (key v, v) ∷ []) ks && distinct ks ≡ true =
              let k = h.0 in ground arith in
            let new : is_some (lookup (key v) m) ≡ false = let k = h.0 in ground arith in
            vacant.1 (new, more.1 (unique, moved ∙ h.1)),
      )

fresh_nil {ℓ κ} : {K : Type ℓ} (V : Type κ) ⦃e : Eq K⦄ (ks : List K) → fresh {V = V} [] ks ≡ true
unfolding lookup
fresh_nil V [] = refl
fresh_nil V (k ∷ ks) = fresh_nil V ks

module _ {ℓ κ} {K : Type ℓ} {V : Type κ} ⦃e : Eq K⦄ where
  -- A map is collected exactly where no key comes twice, and it holds the values in their order.
  pub collect_unique-ok :
      (show : K → Text) (key : V → K) (n : Assoc K V) (vs : List V)
      → (collect_unique show key vs ≡ ok n)
        ↔ ((distinct (map key vs) ≡ true) × (entries key vs ≡ n))
  unfolding collect_unique
  collect_unique-ok show key n vs =
      let all = fresh_nil V (map key vs) in
      let (there, back) = collect_from-ok show key [] n vs in
      (
        λ h. let r = there h in let k = r.0 in (ground arith, r.1),
        λ h. let k = h.0 in back (ground arith, h.1),
      )

module _ {ℓ} {V : Type ℓ} (name : V → Text) where
  -- No name is empty.
  abbrev pub all_named : List V → Bool
  all_named [] = true
  all_named (v ∷ vs) = not (is_empty name (name v)) && all_named vs

  if_named_vacant-ok :
      (b : Bool) (o : Option V) (k : Text) (rest : Result (Assoc Text V) BuilderError)
      (n : Assoc Text V)
      → (if_named_vacant name b o k rest ≡ ok n)
        ↔ ((b ≡ false) × (is_some o ≡ false) × (rest ≡ ok n))
  if_named_vacant-ok true o k rest n = (λ h. cc, λ h. cc)
  if_named_vacant-ok false none k rest n = (λ h. (refl, refl, h), λ h. h.2)
  if_named_vacant-ok false (some v) k rest n = (λ h. cc, λ h. cc)

  -- Where no name is empty, values are collected by their names as by any other key.
  collect_named-eq-collect_unique :
      (m : Assoc Text V) (vs : List V)
      → all_named vs ≡ true
      → collect_named_from name m vs ≡ collect_from (λ k. k) name m vs
  unfolding collect_named_from collect_from
  collect_named-eq-collect_unique m [] h = refl
  collect_named-eq-collect_unique m (v ∷ vs) h =
      let filled : is_empty name (name v) ≡ false = ground arith in
      let rest = collect_named-eq-collect_unique (m ++ (name v, v) ∷ []) vs (ground arith) in
      elim (Option-cases (lookup (name v) m)) [
        | inl n ↦ rw (filled, n) rest
        | inr (w, f) ↦ rw (filled, f) refl
      ]

  collect_named_from-all_named :
      (m n : Assoc Text V) (vs : List V) → collect_named_from name m vs ≡ ok n → all_named vs ≡ true
  unfolding collect_named_from
  collect_named_from-all_named m n [] h = refl
  collect_named_from-all_named m n (v ∷ vs) h =
      let rest = collect_named_from name (m ++ (name v, v) ∷ []) vs in
      let (filled, new, found) =
        (if_named_vacant-ok (is_empty name (name v)) (lookup (name v) m) (name v) rest n).0 h in
      let more = collect_named_from-all_named (m ++ (name v, v) ∷ []) n vs found in ground arith

  pub collect_named-ok :
      (n : Assoc Text V) (vs : List V)
      → (collect_named name vs ≡ ok n)
        ↔ ((all_named vs && distinct (map name vs) ≡ true) × (entries name vs ≡ n))
  unfolding collect_named collect_unique
  collect_named-ok n vs =
      let (there, back) = collect_unique-ok (λ k. k) name n vs in
      (
        λ h.
            let named = collect_named_from-all_named [] n vs h in
            let r = there (sym (collect_named-eq-collect_unique [] vs named) ∙ h) in
            let k = r.0 in (ground arith, r.1),
        λ h.
            let k = h.0 in
            let named : all_named vs ≡ true = ground arith in
            collect_named-eq-collect_unique [] vs named ∙ back (ground arith, h.1),
      )
