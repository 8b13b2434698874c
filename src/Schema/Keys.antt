-- ===== src/Schema/Keys.antt =====
-- The derived equality of identifiers and of paths, which keys the maps of a schema.
use quent.Base.{◌≡◌, ap, ◌↔◌, Bool, true, ◌&&◌, Eq, ◌==◌, nat_eq, pair_eq, option_eq, list_eq}
use quent.Schema.Identifier.{Identifier}
use quent.Schema.TypePath.{TypePath}

abbrev pub identifier_beq : Identifier → Identifier → Bool
identifier_beq i j = i.text == j.text

pub identifier_beq_iff : (i j : Identifier) → (identifier_beq i j ≡ true) ↔ (i ≡ j)
identifier_beq_iff i j =
    let texts = list_eq.same_iff i.text j.text in
    (λ h. ap (λ t. record { text = t }) (texts.0 h), λ h. texts.1 (ap (λ k. k.text) h))

instance abbrev pub identifier_eq : Eq Identifier
identifier_eq = record { same = identifier_beq; same_iff = identifier_beq_iff }

abbrev pub type_path_beq : TypePath → TypePath → Bool
type_path_beq p q = p.namespace == q.namespace && p.name == q.name

pub type_path_beq_iff : (p q : TypePath) → (type_path_beq p q ≡ true) ↔ (p ≡ q)
type_path_beq_iff p q =
    let parts = pair_eq.same_iff (p.namespace, p.name) (q.namespace, q.name) in
    (
      λ h. ap (λ t. record { namespace = t.0; name = t.1 }) (parts.0 h),
      λ h. parts.1 (ap (λ r. (r.namespace, r.name)) h),
    )

instance abbrev pub type_path_eq : Eq TypePath
type_path_eq = record { same = type_path_beq; same_iff = type_path_beq_iff }
