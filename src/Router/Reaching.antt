-- ===== src/Router/Reaching.antt =====
-- What a search certainly finds after one insertion into the tree.
use novaboot.Base.{
  ◌≡◌, refl, ◌≢◌, inl, inr, List, [], ◌∷◌, Option, none, some, arith, Text, same, same_iff,
  same_refl, Bool-cases,
}
use novaboot.Router.Method.{Method, any, method_index_iff}
use novaboot.Router.Tree.{
  Handler, Node, node, Children, nil, cons, Branch, absent, named, segment_of, new_node,
  into_branch, into_children, store_http, insert,
}
use novaboot.Router.Finding.{first_of_two, find_here, find_children, find_param, find}
use novaboot.Router.Patterns.{Matches, done, wild, param, static, Answers, IsStatic}
use novaboot.Router.Insertion.{segment_of-insert}

first-ne-none_left : (o q : Option Handler) → o ≢ none → first_of_two o q ≢ none
first-ne-none_left none q h = absurd (h refl)
first-ne-none_left (some a) q h = cc

first-ne-none_right : (o q : Option Handler) → q ≢ none → first_of_two o q ≢ none
first-ne-none_right none q h = h
first-ne-none_right (some a) q h = cc

store_http-ne-none :
    (m k : Method) (h : Handler) (n : Node) → Answers m k → find_here k (store_http m h n) ≢ none
store_http-ne-none m k h (node s slots ws cs p w) a =
    ground (arith, method_index_iff m k, method_index_iff m any)

module _ (f : Node → Node) (g : Node → Option Handler) (hit : (n : Node) → g (f n) ≢ none) where
  find_param-ne-none : (name : Text) (b : Branch) → find_param g (into_branch f name b) ≢ none
  find_param-ne-none name absent = hit (new_node [])
  find_param-ne-none name (named old n) = hit n

  find_children-ne-none :
      ((n : Node) → segment_of (f n) ≡ segment_of n)
      → (seg s : Text) (cs : Children) → seg ≡ s
      → find_children g s (into_children f seg cs) ≢ none
  find_children-ne-none keeps seg s nil e =
      ground (arith, hit (new_node seg), keeps (new_node seg), same_iff seg s)
  find_children-ne-none keeps seg s (cons c cs) e = elim (Bool-cases (same (segment_of c) seg)) [
    | inl here ↦
        rw here
          (ground (arith, hit c, keeps c, same_iff (segment_of c) seg, same_iff (segment_of c) s))
    | inr other ↦ rw other (first-ne-none_right _ _ (find_children-ne-none keeps seg s cs e))
  ]

-- After an insertion a request that the route answers on a matching path finds a handler.
pub find-insert-Matches :
    {ps ss : List Text} (m k : Method) (h : Handler) (n : Node)
    → Matches ps ss
    → Answers m k
    → find ss k (insert ps m h n) ≢ none
unfolding find insert
find-insert-Matches m k h n done a = store_http-ne-none m k h n a
find-insert-Matches m k h (node _ slots ws cs p w) (wild star) a = rw star (
    first-ne-none_right _ _ (
      first-ne-none_right _ _ (
        find_param-ne-none (store_http m h) (find_here k) (λ n. store_http-ne-none m k h n a) _ w)))
find-insert-Matches m k h (node _ slots ws cs p w) (param {ps} {ss} plain colon t) a =
    rw (plain, colon)
      (first-ne-none_right _ _ (
        first-ne-none_left _ _ (
          find_param-ne-none (insert ps m h) (find ss k) (λ n. find-insert-Matches m k h n t a) _
            p)))
find-insert-Matches m k h (node _ slots ws cs p w) (static {p = seg} {s} {ps} {ss} plain other e t)
      a =
    rw (plain, other)
      (first-ne-none_left _ _ (
        find_children-ne-none (insert ps m h) (find ss k) (λ n. find-insert-Matches m k h n t a)
          (segment_of-insert ps m h) seg s cs e))

find_here-store_http :
    (m : Method) (h : Handler) (n : Node) → find_here m (store_http m h n) ≡ some h
find_here-store_http m h (node s slots ws cs p w) = ground (arith, method_index_iff m m)

find_children-into :
    (f : Node → Node) (g : Node → Option Handler) (h : Handler)
    → ((n : Node) → g (f n) ≡ some h)
    → ((n : Node) → segment_of (f n) ≡ segment_of n)
    → (s : Text) (cs : Children) → find_children g s (into_children f s cs) ≡ some h
find_children-into f g h hit keeps s nil =
    ground (arith, hit (new_node s), keeps (new_node s), same_refl s)
find_children-into f g h hit keeps s (cons c cs) = elim (Bool-cases (same (segment_of c) s)) [
  | inl here ↦ rw here (ground (arith, hit c, keeps c, same_iff (segment_of c) s))
  | inr other ↦ rw other (rw other (find_children-into f g h hit keeps s cs))
]

-- A static route answers its own path, whatever else is registered.
pub find-insert-IsStatic :
    (ps : List Text) (m : Method) (h : Handler) (n : Node)
    → IsStatic ps
    → find ps m (insert ps m h n) ≡ some h
unfolding find insert
find-insert-IsStatic [] m h n st = find_here-store_http m h n
find-insert-IsStatic (seg ∷ ps) m h (node _ slots ws cs p w) (plain, other, st) =
    rw (plain, other)
      (rw (
        find_children-into (insert ps m h) (find ps m) h (λ n. find-insert-IsStatic ps m h n st)
          (segment_of-insert ps m h) seg cs))
