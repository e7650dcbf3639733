-- ===== src/Router/Insertion.antt =====
-- How one insertion into the tree changes what a search finds.
use novaboot.Base.{
  true, false, ◌≡◌, refl, ◌⊎◌, inl, inr, List, [], ◌∷◌, Option, none, some, arith, Text, same,
  same_iff, Bool-cases,
}
use novaboot.Router.Method.{Method, any, method_index_iff}
use novaboot.Router.Tree.{
  Handler, Node, node, Children, nil, cons, Branch, absent, named, segment_of, new_node, starts,
  descend, into_branch, into_children, store_http, store_websocket, insert, insert_websocket,
}
use novaboot.Router.Finding.{first_of_two, find_children, find_param, find_here, find}
use novaboot.Router.Patterns.{Matches, done, wild, param, static, Answers}

-- The answer stays, or becomes `h`, and then `P` holds.
abbrev pub Change : Type 0 → Handler → Option Handler → Option Handler → Type 0
Change P h old new = (new ≡ old) ⊎ ((new ≡ some h) × P)

Change-first :
    {P : Type 0} {h : Handler} (o o' q q' : Option Handler)
    → Change P h o o'
    → Change P h q q'
    → Change P h (first_of_two o q) (first_of_two o' q')
Change-first (some a) o' q q' c d = ground arith
Change-first none o' q q' c d = ground arith

pub segment_of-insert :
    (ps : List Text) (m : Method) (h : Handler) (n : Node)
    → segment_of (insert ps m h n) ≡ segment_of n
unfolding insert
segment_of-insert [] m h (node s slots ws cs p w) = refl
segment_of-insert (seg ∷ rest) m h (node s slots ws cs p w) = ground arith

pub find-new_node : (ss : List Text) (m : Method) (s : Text) → find ss m (new_node s) ≡ none
unfolding find
find-new_node [] m s = refl
find-new_node (_ ∷ _) m s = refl

set_slot-Change :
    (m k : Method) (h : Handler) (n : Node)
    → Change (Answers m k) h (find_here k n) (find_here k (store_http m h n))
set_slot-Change m k h (node s slots ws cs p w) =
    ground (arith, method_index_iff m k, method_index_iff m any)

module _ {P : Type 0} {h : Handler} (f : Node → Node) (g : Node → Option Handler)
    (step : (n : Node) → Change P h (g n) (g (f n)))
    (fresh : (s : Text) → g (new_node s) ≡ none) where
  find_param-Change :
      (name : Text) (b : Branch) → Change P h (find_param g b) (find_param g (into_branch f name b))
  find_param-Change name absent = ground (arith, step (new_node []), fresh [])
  find_param-Change name (named old n) = step n

  find_children-Change :
      ((n : Node) → segment_of (f n) ≡ segment_of n)
      → (seg s : Text) (cs : Children)
      → Change ((seg ≡ s) × P) h (find_children g s cs) (find_children g s (into_children f seg cs))
  find_children-Change keeps seg s nil =
      ground (arith, step (new_node seg), fresh seg, keeps (new_node seg), same_iff seg s)
  find_children-Change keeps seg s (cons c cs) = elim (Bool-cases (same (segment_of c) seg)) [
    | inl e ↦
        rw e
          (ground (arith, step c, keeps c, same_iff (segment_of c) seg, same_iff (segment_of c) s))
    | inr e ↦ rw e (Change-first _ _ _ _ (inl refl) (find_children-Change keeps seg s cs))
  ]

Change-map :
    {P Q : Type 0} {h : Handler} {o o' : Option Handler}
    → (P → Q)
    → Change P h o o'
    → Change Q h o o'
Change-map f (inl e) = inl e
Change-map f (inr (e, x)) = inr (e, f x)

-- The effect of `descend` at one node, from those of its two continuations.
module _ {P Q R : Type 0} {h : Handler} (k : Method) (seg s : Text) (ss : List Text)
    (store deeper : Node → Node)
    (stored : (n : Node) → Change Q h (find_here k n) (find_here k (store n)))
    (step : (n : Node) → Change P h (find ss k n) (find ss k (deeper n)))
    (keeps : (n : Node) → segment_of (deeper n) ≡ segment_of n)
    (wild_case : starts b'*' seg ≡ true → Q → R)
    (param_case : starts b'*' seg ≡ false → starts b':' seg ≡ true → P → R)
    (static_case : starts b'*' seg ≡ false → starts b':' seg ≡ false → seg ≡ s → P → R) where
  descend-Change :
      (n : Node) → Change R h (find (s ∷ ss) k n) (find (s ∷ ss) k (descend store deeper seg n))
  unfolding find
  descend-Change (node _ slots ws cs p w) = elim (Bool-cases (starts b'*' seg)) [
    | inl star ↦ rw star (
        Change-first _ _ _ _ (inl refl) (
          Change-first _ _ _ _ (inl refl) (
            Change-map (wild_case star)
              (find_param-Change store (find_here k) stored (λ _. refl) _ w))))
    | inr plain ↦ elim (Bool-cases (starts b':' seg)) [
      | inl colon ↦
          rw (plain, colon)
            (Change-first _ _ _ _ (inl refl) (
              Change-first _ _ _ _
                (Change-map (param_case plain colon)
                  (find_param-Change deeper (find ss k) step (find-new_node ss k) _ p))
                (inl refl)))
      | inr none_of ↦
          rw (plain, none_of)
            (Change-first _ _ _ _
              (Change-map (λ e. static_case plain none_of e.0 e.1)
                (find_children-Change deeper (find ss k) step (find-new_node ss k) keeps seg s cs))
              (inl refl))
    ]
  ]

find_here-descend :
    (store deeper : Node → Node) (k : Method) (seg : Text) (n : Node)
    → find_here k (descend store deeper seg n) ≡ find_here k n
find_here-descend store deeper k seg (node _ slots ws cs p w) = ground arith

-- One insertion changes the answer to a request only into the inserted handler, and only if the
-- route answers the method and its pattern matches the path.
pub find-insert :
    (ps ss : List Text) (m k : Method) (h : Handler) (n : Node)
    → Change (Answers m k × Matches ps ss) h (find ss k n) (find ss k (insert ps m h n))
unfolding find insert
find-insert [] [] m k h n = Change-map (λ a. (a, done)) (set_slot-Change m k h n)
find-insert [] (s ∷ ss) m k h (node _ slots ws cs p w) = inl refl
find-insert (seg ∷ ps) [] m k h n = inl (find_here-descend (store_http m h) (insert ps m h) k seg n)
find-insert (seg ∷ ps) (s ∷ ss) m k h n =
    descend-Change k seg s ss (store_http m h) (insert ps m h) (set_slot-Change m k h)
      (find-insert ps ss m k h) (segment_of-insert ps m h) (λ star a. (a, wild star))
      (λ plain colon e. (e.0, param plain colon e.1))
      (λ plain other same_text e. (e.0, static plain other same_text e.1)) n

Change-none : {h : Handler} {o o' : Option Handler} → Change ⊥ h o o' → o' ≡ o
Change-none (inl e) = e
Change-none (inr e) = absurd e.1

segment_of-insert_websocket :
    (ps : List Text) (h : Handler) (n : Node) → segment_of (insert_websocket ps h n) ≡ segment_of n
unfolding insert_websocket
segment_of-insert_websocket [] h (node s slots ws cs p w) = refl
segment_of-insert_websocket (seg ∷ rest) h (node s slots ws cs p w) = ground arith

find_here-store_websocket :
    (k : Method) (h : Handler) (n : Node) → find_here k (store_websocket h n) ≡ find_here k n
find_here-store_websocket k h (node s slots ws cs p w) = refl

find-insert_websocket-Change :
    (ps ss : List Text) (k : Method) (h : Handler) (n : Node)
    → Change ⊥ h (find ss k n) (find ss k (insert_websocket ps h n))
unfolding find insert_websocket
find-insert_websocket-Change [] [] k h n = inl (find_here-store_websocket k h n)
find-insert_websocket-Change [] (s ∷ ss) k h (node _ slots ws cs p w) = inl refl
find-insert_websocket-Change (seg ∷ ps) [] k h n =
    inl (find_here-descend (store_websocket h) (insert_websocket ps h) k seg n)
find-insert_websocket-Change (seg ∷ ps) (s ∷ ss) k h n =
    descend-Change {Q = ⊥} k seg s ss (store_websocket h) (insert_websocket ps h)
      (λ c. inl (find_here-store_websocket k h c)) (find-insert_websocket-Change ps ss k h)
      (segment_of-insert_websocket ps h) (λ _ e. e) (λ _ _ e. e) (λ _ _ _ e. e) n

-- A WebSocket endpoint changes the answer to no HTTP request.
pub find-insert_websocket :
    (ps ss : List Text) (k : Method) (h : Handler) (n : Node)
    → find ss k (insert_websocket ps h n) ≡ find ss k n
find-insert_websocket ps ss k h n = Change-none (find-insert_websocket-Change ps ss k h n)
