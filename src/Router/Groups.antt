-- ===== src/Router/Groups.antt =====
-- Joining the prefix of a route group and the path of a route.
use novaboot.Base.{
  true, false, ◌≡◌, sym, ap, inl, inr, [], ◌∷◌, ◌++◌, arith, if◌then◌else◌, Text, is_empty,
  Bool-cases,
}
use novaboot.Router.Tree.{starts}
use novaboot.Router.Table.{behind_slash, ends, drop_last, join_path}

-- The text with one slash less in front, or behind.
abbrev bare_front : Text → Text
bare_front s = if starts b'/' s then behind_slash s else s

abbrev bare_back : Text → Text
bare_back s = if ends b'/' s then drop_last s else s

drop_last-append : (s t : Text) → ends b'/' s ≡ true → drop_last s ++ (b'/' ∷ t) ≡ s ++ t
drop_last-append [] t e = cc
drop_last-append (c ∷ []) t e = ground arith
drop_last-append (c ∷ d ∷ s) t e = ap (◌∷◌ c) (drop_last-append (d ∷ s) t e)

front-slash : (s : Text) → starts b'/' s ≡ true → b'/' ∷ behind_slash s ≡ s
front-slash [] e = cc
front-slash (c ∷ s) e = ground arith

-- Joining two nonempty texts puts one slash between them, in place of those at the joint.
join_path_lem :
    (base rel : Text)
    → is_empty base ≡ false
    → is_empty rel ≡ false
    → join_path base rel ≡ bare_back base ++ (b'/' ∷ bare_front rel)
unfolding join_path
join_path_lem base rel p q = elim (Bool-cases (ends b'/' base)) [
  | inl e ↦ elim (Bool-cases (starts b'/' rel)) [
    | inl f ↦ rw (p, q, e, f) (ap (◌++◌ (drop_last base)) (sym (front-slash rel f)))
    | inr f ↦ rw (p, q, e, f) (sym (drop_last-append base rel e))
  ]
  | inr e ↦ elim (Bool-cases (starts b'/' rel)) [
    | inl f ↦ rw (p, q, e, f) (ap (◌++◌ base) (sym (front-slash rel f)))
    | inr f ↦ rw (p, q, e, f)
  ]
]
