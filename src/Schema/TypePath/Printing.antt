-- ===== src/Schema/TypePath/Printing.antt =====
-- A path is read from its text, and from no other.
use quent.Base.{
  ℕ, ◌+◌, ◌≡◌, refl, sym, ap, ◌∙◌, ◌≢◌, ◌↔◌, Bool, true, false, ◌&&◌, Option, none, some, List, [],
  ◌∷◌, ◌++◌, map, arith, nat_eq, pair_eq, option_eq, list_eq,
}
use mathlib.Core.List.{append_assoc}
use quent.Base.Text.{Text, text}
use quent.Base.Result.{Result, ok, err, ◌>>=◌, bind_ok}
use quent.Schema.Identifier
use quent.Schema.Identifier.{Identifier, IdentifierError, is_ascii_alphabetic, may_follow}
use quent.Schema.Identifier.Grammar.{matches, all_may_follow, try_new-ok}
use quent.Schema.TypePath.{
  TypePath, PathError, pop, cons_init, from_popped, try_from, split, parsed_segment, parse_segments,
  from_str, display, display_segments,
}
use quent.Schema.TypePath.Segments.{join, no_colon, join-split, split-no_colon, split-append}

abbrev text_of : Identifier → Text
text_of i = i.text

abbrev all_match : List Text → Bool
all_match [] = true
all_match (s ∷ ss) = matches s && all_match ss

abbrev segments : TypePath → List Identifier
segments p = p.namespace ++ p.name ∷ []

-- Whether each segment of a path follows the grammar of identifiers.
abbrev pub well_formed : TypePath → Bool
well_formed p = all_match (map text_of (segments p))

follow-no_colon : (s : Text) → all_may_follow s ≡ true → no_colon s ≡ true
follow-no_colon [] h = refl
follow-no_colon (c ∷ s) h = let rest = follow-no_colon s (ground arith) in ground arith

matches-no_colon : (s : Text) → matches s ≡ true → no_colon s ≡ true
matches-no_colon [] h = cc
matches-no_colon (c ∷ s) h = let rest = follow-no_colon s (ground arith) in ground arith

split-join :
    (s : Text) (ss : List Text) → all_match (s ∷ ss) ≡ true → split (join (s ∷ ss)) ≡ s ∷ ss
split-join s [] h = split-no_colon s (matches-no_colon s (ground arith))
split-join s (t ∷ ss) h =
    split-append s (join (t ∷ ss)) (matches-no_colon s (ground arith))
    ∙ ap (λ r. s ∷ r) (split-join t ss (ground arith))

pop-append : (ns : List Identifier) (n : Identifier) → pop (ns ++ n ∷ []) ≡ some (ns, n)
unfolding pop
pop-append [] n = refl
pop-append (i ∷ []) n = refl
pop-append (i ∷ j ∷ ns) n = ap (cons_init i) (pop-append (j ∷ ns) n)

cons_init-some :
    (i n : Identifier) (ns : List Identifier) (o : Option (List Identifier × Identifier))
    → cons_init i o ≡ some (ns, n)
    → (init : List Identifier) × (o ≡ some (init, n)) × (ns ≡ i ∷ init)
cons_init-some i n ns none h = cc
cons_init-some i n ns (some (init, last)) h = (init, cc, cc)

pop-some : (is ns : List Identifier) (n : Identifier) → pop is ≡ some (ns, n) → is ≡ ns ++ n ∷ []
unfolding pop
pop-some [] ns n h = cc
pop-some (i ∷ []) ns n h =
    let first : [] ≡ ns = cc in let last : i ≡ n = cc in rw (sym first, sym last) refl
pop-some (i ∷ j ∷ is) ns n h =
    let (init, e, same) = cons_init-some i n ns (pop (j ∷ is)) h in
    ap (λ r. i ∷ r) (pop-some (j ∷ is) init n e) ∙ ap (λ r. r ++ n ∷ []) (sym same)

display-join :
    (ns : List Identifier) (n : Identifier)
    → display_segments ns ++ n.text ≡ join (map text_of (ns ++ n ∷ []))
unfolding display_segments
display-join [] n = refl
display-join (i ∷ []) n = append_assoc (i.text ++ text "::") [] n.text
display-join (i ∷ j ∷ ns) n =
    append_assoc (i.text ++ text "::") (display_segments (j ∷ ns)) n.text
    ∙ ap (λ r. i.text ++ text "::" ++ r) (display-join (j ∷ ns) n)

from_popped-inv :
    (o : Option (List Identifier × Identifier)) (p : TypePath)
    → from_popped o ≡ ok p
    → o ≡ some (p.namespace, p.name)
from_popped-inv none p h = cc
from_popped-inv (some (init, last)) p h =
    let same : record { namespace = init; name = last } ≡ p = cc in
    ap (λ q. some (q.namespace, q.name)) same

parsed_segment-ok :
    (index : ℕ) (r : Result Identifier IdentifierError) (i : Identifier)
    → (parsed_segment index r ≡ ok i) ↔ (r ≡ ok i)
parsed_segment-ok index (ok j) i = (λ h. cc, λ h. cc)
parsed_segment-ok index (err e) i = (λ h. cc, λ h. cc)

parse_segments-ok :
    (index : ℕ) (ss : List Text) (is : List Identifier)
    → (parse_segments index ss ≡ ok is) ↔ ((all_match ss ≡ true) × (map text_of is ≡ ss))
unfolding parse_segments
parse_segments-ok index [] [] = (λ h. (refl, refl), λ h. refl)
parse_segments-ok index [] (i ∷ is) = (λ h. cc, λ h. cc)
parse_segments-ok index (s ∷ ss) [] =
    let first = parsed_segment index (Identifier.try_new s) in
    let tail : Identifier → Result (List Identifier) PathError =
      λ i. parse_segments (index + 1) ss >>= λ is. ok (i ∷ is) in
    (
      λ h.
          let (i, e, h) = (bind_ok first tail []).0 h in
          let (js, f, g) = (bind_ok (parse_segments (index + 1) ss) (λ is. ok (i ∷ is)) []).0 h in
          cc,
      λ h. cc,
    )
parse_segments-ok index (s ∷ ss) (i ∷ is) =
    let rest = parse_segments-ok (index + 1) ss is in
    let first = parsed_segment index (Identifier.try_new s) in
    let tail : Identifier → Result (List Identifier) PathError =
      λ i. parse_segments (index + 1) ss >>= λ is. ok (i ∷ is) in
    let parsed = parsed_segment-ok index (Identifier.try_new s) i in
    (
      λ h.
          let (j, e, h) = (bind_ok first tail (i ∷ is)).0 h in
          let (js, f, g) =
            (bind_ok (parse_segments (index + 1) ss) (λ is. ok (j ∷ is)) (i ∷ is)).0 h in
          let found : first ≡ ok i = cc in
          let others : parse_segments (index + 1) ss ≡ ok is = cc in
          let m = (try_new-ok s i).0 (parsed.0 found) in
          let r = rest.0 others in (rw (m.0, r.0) refl, rw (m.1, r.1) refl),
      λ h.
          let both : (matches s ≡ true) × (all_match ss ≡ true) = (ground arith, ground arith) in
          let e = parsed.1 ((try_new-ok s i).1 (both.0, cc)) in
          let f = rest.1 (both.1, cc) in rw (e, f) refl,
    )

split-segments :
    (ns : List Identifier) (n : Identifier)
    → all_match (map text_of (ns ++ n ∷ [])) ≡ true
    → split (join (map text_of (ns ++ n ∷ []))) ≡ map text_of (ns ++ n ∷ [])
split-segments [] n h = split-join n.text [] h
split-segments (i ∷ ns) n h = split-join i.text (map text_of (ns ++ n ∷ [])) h

split-display : (p : TypePath) → well_formed p ≡ true → split (display p) ≡ map text_of (segments p)
unfolding display
split-display p h = ap split (display-join p.namespace p.name) ∙ split-segments p.namespace p.name h

display-nonempty : (p : TypePath) → well_formed p ≡ true → display p ≢ []
unfolding split
display-nonempty p h blank =
    let one = sym (split-display p h) ∙ ap split blank in
    let bad : all_match (map text_of (segments p)) ≡ false = ap all_match one in cc

-- A text is read as a path exactly where the path's segments follow the grammar of identifiers and
-- the text is the one that the path prints.
pub from_str-display :
    (s : Text) (p : TypePath) → (from_str s ≡ ok p) ↔ ((well_formed p ≡ true) × (display p ≡ s))
unfolding from_str try_from display
from_str-display [] p = (λ h. cc, λ (h, e). elim (display-nonempty p h e) [ ])
from_str-display (c ∷ s) p = (
  λ h.
      let (is, e, h) = (bind_ok (parse_segments 0 (split (c ∷ s))) try_from p).0 h in
      let parsed = (parse_segments-ok 0 (split (c ∷ s)) is).0 e in
      let same = pop-some is p.namespace p.name (from_popped-inv (pop is) p h) in
      let texts = ap (map text_of) (sym same) ∙ parsed.1 in
      (
        ap all_match texts ∙ parsed.0,
        display-join p.namespace p.name ∙ ap join texts ∙ join-split (c ∷ s),
      ),
  λ (h, e).
      let parts = sym (ap split (sym e) ∙ split-display p h) in
      let matched = ap all_match (sym parts) ∙ h in
      let read = (parse_segments-ok 0 (split (c ∷ s)) (segments p)).1 (matched, parts) in
      let popped = ap from_popped (pop-append p.namespace p.name) in
      (bind_ok (parse_segments 0 (split (c ∷ s))) try_from p).1 (segments p, read, popped),
)
