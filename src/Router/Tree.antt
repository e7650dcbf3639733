-- ===== src/Router/Tree.antt =====
-- The radix tree of src/router/router.cpp: nodes, insertion and search.
use novaboot.Base.{
  ℕ, Bool, true, false, List, [], ◌∷◌, Option, none, some, if◌then◌else◌, ◌==◌, Text, same,
}
use novaboot.Router.Method.{Method, any, method_index}
use novaboot.Router.Params.{PathParams, set, remove}

-- A registered handler, HTTP or WebSocket, named by its place in the program.
abbrev pub Handler : Type 0
Handler = ℕ

-- The array `handlers`, indexed by the method.
abbrev pub Slots : Type 0
Slots = Method → Option Handler

-- `Branch` is a `unique_ptr` with the name that is stored beside it: the parameter child and the
-- wildcard child of a node.
mutual
  pub data Node : Type 0 where
    node :
        (segment : Text)
        → Slots
        → (websocket : Option Handler) → Children
        → (param wildcard : Branch) → Node

  pub data Children : Type 0 where
    nil : Children
    cons : Node → Children → Children

  pub data Branch : Type 0 where
    absent : Branch
    named : Text → Node → Branch

abbrev pub no_slots : Slots
no_slots m = none

abbrev pub new_node : Text → Node
new_node s = node s no_slots none nil absent absent

abbrev pub segment_of : Node → Text
segment_of (node s _ _ _ _ _) = s

abbrev pub set_slot : Method → Handler → Slots → Slots
set_slot m h slots k = if method_index m k then some h else slots k

abbrev or_else {ℓ} : {A : Type ℓ} → Option A → Option A → Option A
or_else (some a) o = some a
or_else none o = o

-- The handler for a method, with `ANY` as the fallback.
abbrev pub get_handler : Slots → Method → Option Handler
get_handler slots m = or_else (slots m) (slots any)

-- The text up to the next slash, and what stands behind the slash.
unfoldable pub cut : Text → Text × Text
cut [] = ([], [])
cut (c ∷ s) = if c == b'/' then ([], s) else (c ∷ (cut s).0, (cut s).1)

abbrev push : ℕ → List Text → List Text
push c [] = (c ∷ []) ∷ []
push c (s ∷ ss) = (c ∷ s) ∷ ss

-- The segments that repeated cuts give, until nothing remains.
unfoldable pub segments : Text → List Text
segments [] = []
segments (c ∷ s) = if c == b'/' then [] ∷ segments s else push c (segments s)

abbrev pub starts : ℕ → Text → Bool
starts c [] = false
starts c (d ∷ s) = d == c

abbrev tail : Text → Text
tail [] = []
tail (c ∷ s) = s

-- The node that an insertion puts into a branch: the child that is there, under its old name, or
-- a new one under the name of the pattern.
abbrev pub into_branch : (Node → Node) → Text → Branch → Branch
into_branch f name absent = named name (f (new_node []))
into_branch f name (named old n) = named old (f n)

abbrev pub into_children : (Node → Node) → Text → Children → Children
into_children f s nil = cons (f (new_node s)) nil
into_children f s (cons c cs) =
    if same (segment_of c) s then cons (f c) cs else cons c (into_children f s cs)

-- What an insertion stores at the last node: `handlers[method]` or `websocket_handler`.
abbrev pub store_http : Method → Handler → Node → Node
store_http m h (node s slots ws cs p w) = node s (set_slot m h slots) ws cs p w

abbrev pub store_websocket : Handler → Node → Node
store_websocket h (node s slots ws cs p w) = node s slots (some h) cs p w

-- The walk that `insert` and `insert_websocket` share.
abbrev pub descend : (Node → Node) → (Node → Node) → Text → Node → Node
descend store deeper seg (node s slots ws cs p w) =
    if starts b'*' seg
    then node s slots ws cs p (into_branch store (tail seg) w)
    else if starts b':' seg
    then node s slots ws cs (into_branch deeper (tail seg) p) w
    else node s slots ws (into_children deeper seg cs) p w

unfoldable pub insert : List Text → Method → Handler → Node → Node
insert [] m h n = store_http m h n
insert (seg ∷ rest) m h n = descend (store_http m h) (insert rest m h) seg n

unfoldable pub insert_websocket : List Text → Handler → Node → Node
insert_websocket [] h n = store_websocket h n
insert_websocket (seg ∷ rest) h n = descend (store_websocket h) (insert_websocket rest h) seg n

-- A search returns the handler, or null, and the parameters, which it changes on the way.
abbrev pub Found : Type 0
Found = Option Handler × PathParams

-- `if (h) return h;` and then the rest of the search.
abbrev pub or_search : Found → (PathParams → Found) → Found
or_search (some h, ps) k = (some h, ps)
or_search (none, ps) k = k ps

-- The wildcard child takes all that remains; its answer is final.
abbrev pub search_wildcard : Method → Branch → Text → PathParams → Found
search_wildcard m absent remaining ps = (none, ps)
search_wildcard m (named name (node _ slots _ _ _ _)) remaining ps =
    (get_handler slots m, set name remaining ps)

unfoldable mutual
  pub search : Method → Node → Text → PathParams → Found
  search m (node _ slots _ cs p w) [] ps = (get_handler slots m, ps)
  search m (node _ slots _ cs p w) (c ∷ s) ps =
      or_search (search_children m cs (cut (c ∷ s)) ps)
        λ ps. or_search (search_param m p (cut (c ∷ s)) ps) λ ps. search_wildcard m w (c ∷ s) ps

  pub search_children : Method → Children → Text × Text → PathParams → Found
  search_children m nil at ps = (none, ps)
  search_children m (cons c cs) at ps = elim (same (segment_of c) at.0) [
    | true ↦ or_search (search m c at.1 ps) (search_children m cs at)
    | false ↦ search_children m cs at ps
  ]

  pub search_param : Method → Branch → Text × Text → PathParams → Found
  search_param m absent at ps = (none, ps)
  search_param m (named name n) at ps = search m n at.1 (set name at.0 ps)

-- The WebSocket search skips a wildcard child with no endpoint, and takes a parameter back when
-- its branch fails.
abbrev pub search_websocket_wildcard : Branch → Text → PathParams → Found
search_websocket_wildcard (named name (node _ _ (some h) _ _ _)) remaining ps =
    (some h, set name remaining ps)
search_websocket_wildcard _ remaining ps = (none, ps)

unfoldable mutual
  pub search_websocket : Node → Text → PathParams → Found
  search_websocket (node _ _ ws cs p w) [] ps = (ws, ps)
  search_websocket (node _ _ ws cs p w) (c ∷ s) ps =
      or_search (search_websocket_children cs (cut (c ∷ s)) ps) λ ps.
        or_search (search_websocket_param p (cut (c ∷ s)) ps)
          λ ps. search_websocket_wildcard w (c ∷ s) ps

  pub search_websocket_children : Children → Text × Text → PathParams → Found
  search_websocket_children nil at ps = (none, ps)
  search_websocket_children (cons c cs) at ps = elim (same (segment_of c) at.0) [
    | true ↦ or_search (search_websocket c at.1 ps) (search_websocket_children cs at)
    | false ↦ search_websocket_children cs at ps
  ]

  pub search_websocket_param : Branch → Text × Text → PathParams → Found
  search_websocket_param absent at ps = (none, ps)
  search_websocket_param (named name n) at ps =
      or_search (search_websocket n at.1 (set name at.0 ps)) λ ps. (none, remove name ps)
