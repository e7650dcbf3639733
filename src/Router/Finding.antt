-- ===== src/Router/Finding.antt =====
-- Which handler a search finds, read from the list of the segments of a path: the parameters that
-- the search carries do not matter for it.
use novaboot.Base.{
  ℕ, Bool, true, false, ◌≡◌, refl, List, [], ◌∷◌, Option, none, some, arith, Text, same,
  if◌then◌else◌,
}
use novaboot.Router.Method.{Method}
use novaboot.Router.Params.{PathParams, set}
use novaboot.Router.Tree.{
  Handler, Found, Node, node, Children, nil, cons, Branch, absent, named, segment_of, get_handler,
  cut, segments, or_search, search_wildcard, search, search_children, search_param,
}

-- Cutting the first segment off and going on gives all the segments.
pub segments-cut :
    (c : ℕ) (s : Text) → segments (c ∷ s) ≡ (cut (c ∷ s)).0 ∷ segments (cut (c ∷ s)).1
unfolding segments cut
segments-cut c [] = ground arith
segments-cut c (d ∷ s) = ground (arith, segments-cut d s)

-- The first answer of two, in the order in which the search asks.
abbrev pub first_of_two : Option Handler → Option Handler → Option Handler
first_of_two (some h) o = some h
first_of_two none o = o

abbrev pub find_here : Method → Node → Option Handler
find_here m (node _ slots _ _ _ _) = get_handler slots m

abbrev pub find_children : (Node → Option Handler) → Text → Children → Option Handler
find_children f s nil = none
find_children f s (cons c cs) =
    first_of_two (if same (segment_of c) s then f c else none) (find_children f s cs)

abbrev pub find_param : (Node → Option Handler) → Branch → Option Handler
find_param f absent = none
find_param f (named name n) = f n

abbrev pub find_below : (Node → Option Handler) → Method → Text → Node → Option Handler
find_below f m s (node _ slots _ cs p w) =
    first_of_two (find_children f s cs) (first_of_two (find_param f p) (find_param (find_here m) w))

unfoldable pub find : List Text → Method → Node → Option Handler
find [] m n = find_here m n
find (s ∷ ss) m n = find_below (find ss m) m s n

or_search-first :
    (r : Option Handler × PathParams) (k : PathParams → Option Handler × PathParams)
    (o q : Option Handler)
    → r.0 ≡ o
    → ((ps : PathParams) → (k ps).0 ≡ q)
    → (or_search r k).0 ≡ first_of_two o q
or_search-first (some h, ps) k o q d e = rw (← d)
or_search-first (none, ps) k o q d e = rw (← d) (e ps)

child-first :
    (b : Bool) (r : Option Handler × PathParams) (k : PathParams → Option Handler × PathParams)
    (ps : PathParams) (o q : Option Handler)
    → r.0 ≡ o
    → ((qs : PathParams) → (k qs).0 ≡ q)
    → (elim b as (λ _. Found) [ true ↦ or_search r k | false ↦ k ps ]).0
      ≡ first_of_two (if b then o else none) q
child-first true r k ps o q d e = or_search-first r k o q d e
child-first false r k ps o q d e = e ps

search_wildcard_find :
    (m : Method) (w : Branch) (s : Text) (ps : PathParams)
    → (search_wildcard m w s ps).0 ≡ find_param (find_here m) w
search_wildcard_find m absent s ps = refl
search_wildcard_find m (named name (node _ slots _ _ _ _)) s ps = refl

segments-nil : segments [] ≡ []
unfolding segments
segments-nil = refl

mutual
  unfolding search find

  pub search-find :
      (m : Method) (n : Node) (s : Text) (ps : PathParams)
      → (search m n s ps).0 ≡ find (segments s) m n
  search-find m (node _ slots _ cs p w) [] ps = rw segments-nil refl
  search-find m (node _ slots _ cs p w) (c ∷ s) ps = rw (segments-cut c s) (
      or_search-first (search_children m cs (cut (c ∷ s)) ps) _ _ _
        (search_children-find m cs (cut (c ∷ s)) ps)
        λ qs.
          or_search-first (search_param m p (cut (c ∷ s)) qs) _ _ _
            (search_param-find m p (cut (c ∷ s)) qs) (search_wildcard_find m w (c ∷ s)))

  search_children-find :
      (m : Method) (cs : Children) (at : Text × Text) (ps : PathParams)
      → (search_children m cs at ps).0 ≡ find_children (find (segments at.1) m) at.0 cs
  search_children-find m nil at ps = refl
  search_children-find m (cons c cs) at ps =
      child-first (same (segment_of c) at.0) (search m c at.1 ps) (search_children m cs at) ps _ _
        (search-find m c at.1 ps) (search_children-find m cs at)

  search_param-find :
      (m : Method) (p : Branch) (at : Text × Text) (ps : PathParams)
      → (search_param m p at ps).0 ≡ find_param (find (segments at.1) m) p
  search_param-find m absent at ps = refl
  search_param-find m (named name n) at ps = search-find m n at.1 (set name at.0 ps)
