-- ===== src/Store/Routes/Sorting.antt =====
-- The order in which `ListRouteRulesForNode` returns the rules of a node.
use mathlib.Core.List.{reverse, reverse-cons, append_assoc, append-nil}
use angry_box.Prelude.{
  ◌≡◌, refl, sym, ap, ◌∙◌, String, Bool, true, false, not, ◌&&◌, List, [], ◌∷◌, ◌++◌, arith, ◌=s◌,
  if◌then◌else◌, Bool-cases, inl, inr, keep, keep-append, All, All-append,
}
use angry_box.Prelude.Int.{ℤ, ◌≤ℤ◌, ltb_ℤ}
use angry_box.Model.Base.{RouteRule}
use angry_box.Store.{ok, Disk, holds}
use angry_box.Store.Laws.{ok-injective, query-holds}
use angry_box.Store.{StoreFile}
use angry_box.Store.Routes.{sink, sort_onto, rules_of, list_route_rules_for_node}

-- Lower priorities first.
abbrev pub IsOrdered : List RouteRule → Type 0
IsOrdered [] = Unit
IsOrdered (x ∷ xs) = All (λ y. x.priority ≤ℤ y.priority) xs × IsOrdered xs

abbrev pub has_priority : ℤ → RouteRule → Bool
has_priority p r = not (ltb_ℤ r.priority p) && not (ltb_ℤ p r.priority)

abbrev IsDescending : List RouteRule → Type 0
IsDescending [] = Unit
IsDescending (x ∷ xs) = All (λ y. y.priority ≤ℤ x.priority) xs × IsDescending xs

All-sink :
    (P : RouteRule → Type 0) (r : RouteRule) (xs : List RouteRule)
    → P r
    → All P xs
    → All P (sink r xs)
unfolding sink
All-sink P r [] p h = (p, tt)
All-sink P r (x ∷ xs) p (q, h) = elim (Bool-cases (ltb_ℤ r.priority x.priority)) [
  | inl lt ↦ rw lt (q, All-sink P r xs p h)
  | inr ge ↦ rw ge (p, (q, h))
]

All-le :
    (a b : ℤ) (xs : List RouteRule)
    → a ≤ℤ b
    → All (λ y. y.priority ≤ℤ a) xs
    → All (λ y. y.priority ≤ℤ b) xs
All-le a b [] h k = tt
All-le a b (x ∷ xs) h (p, k) = (omega arith, All-le a b xs h k)

sink-IsDescending :
    (r : RouteRule) (xs : List RouteRule) → IsDescending xs → IsDescending (sink r xs)
unfolding sink
sink-IsDescending r [] h = (tt, tt)
sink-IsDescending r (x ∷ xs) (p, h) = elim (Bool-cases (ltb_ℤ r.priority x.priority)) [
  | inl lt ↦
      rw lt
        (All-sink (λ y. y.priority ≤ℤ x.priority) r xs (ground arith) p, sink-IsDescending r xs h)
  | inr ge ↦
      let le : x.priority ≤ℤ r.priority = ground arith in
      rw ge ((le, All-le x.priority r.priority xs le p), (p, h))
]

sort_onto-IsDescending : (rs xs : List RouteRule) → IsDescending xs → IsDescending (sort_onto xs rs)
sort_onto-IsDescending [] xs h = h
sort_onto-IsDescending (r ∷ rs) xs h =
    sort_onto-IsDescending rs (sink r xs) (sink-IsDescending r xs h)

IsOrdered-append_one :
    (ys : List RouteRule) (x : RouteRule)
    → IsOrdered ys
    → All (λ y. y.priority ≤ℤ x.priority) ys
    → IsOrdered (ys ++ x ∷ [])
IsOrdered-append_one [] x h k = (tt, tt)
IsOrdered-append_one (y ∷ ys) x (p, h) (q, k) = (
  All-append (λ z. y.priority ≤ℤ z.priority) ys (x ∷ []) p (q, tt),
  IsOrdered-append_one ys x h k,
)

All-reverse : (P : RouteRule → Type 0) (xs : List RouteRule) → All P xs → All P (reverse xs)
All-reverse P [] h = tt
All-reverse P (x ∷ xs) (p, h) =
    rw (reverse-cons x xs) (All-append P (reverse xs) (x ∷ []) (All-reverse P xs h) (p, tt))

reverse-IsOrdered : (xs : List RouteRule) → IsDescending xs → IsOrdered (reverse xs)
reverse-IsOrdered [] h = tt
reverse-IsOrdered (x ∷ xs) (p, h) =
    rw (reverse-cons x xs)
      (IsOrdered-append_one (reverse xs) x (reverse-IsOrdered xs h) (All-reverse _ xs p))

-- Among the rules of one priority the sort changes nothing.
keep-sink :
    (p : ℤ) (r : RouteRule) (xs : List RouteRule)
    → keep (has_priority p) (sink r xs) ≡ keep (has_priority p) (r ∷ xs)
unfolding sink
keep-sink p r [] = refl
keep-sink p r (x ∷ xs) = elim (Bool-cases (ltb_ℤ r.priority x.priority)) [
  | inl lt ↦ ground (arith, keep-sink p r xs)
  | inr ge ↦ rw ge
]

keep-reverse :
    (test : RouteRule → Bool) (xs : List RouteRule)
    → keep test (reverse xs) ≡ reverse (keep test xs)
keep-reverse test [] = refl
keep-reverse test (x ∷ xs) = rw (reverse-cons x xs) (
    keep-append test (reverse xs) (x ∷ [])
    ∙ ap (λ z. z ++ keep test (x ∷ [])) (keep-reverse test xs)
    ∙ last (test x))
  where
    last :
        (b : Bool)
        → reverse (keep test xs) ++ (if b then x ∷ [] else [])
          ≡ reverse (if b then x ∷ keep test xs else keep test xs)
    last true = sym (reverse-cons x (keep test xs))
    last false = append-nil (reverse (keep test xs))

keep-reverse-sink :
    (p : ℤ) (r : RouteRule) (xs : List RouteRule)
    → keep (has_priority p) (reverse (sink r xs))
      ≡ keep (has_priority p) (reverse xs) ++ keep (has_priority p) (r ∷ [])
keep-reverse-sink p r xs =
    keep-reverse (has_priority p) (sink r xs)
    ∙ ap reverse (keep-sink p r xs)
    ∙ sym (keep-reverse (has_priority p) (r ∷ xs))
    ∙ ap (keep (has_priority p)) (reverse-cons r xs)
    ∙ keep-append (has_priority p) (reverse xs) (r ∷ [])

keep-sort_onto :
    (p : ℤ) (rs xs : List RouteRule)
    → keep (has_priority p) (reverse (sort_onto xs rs))
      ≡ keep (has_priority p) (reverse xs) ++ keep (has_priority p) rs
keep-sort_onto p [] xs = sym (append-nil _)
keep-sort_onto p (r ∷ rs) xs =
    keep-sort_onto p rs (sink r xs)
    ∙ ap (λ z. z ++ keep (has_priority p) rs) (keep-reverse-sink p r xs)
    ∙ append_assoc (keep (has_priority p) (reverse xs)) (keep (has_priority p) (r ∷ []))
        (keep (has_priority p) rs)
    ∙ ap (λ z. keep (has_priority p) (reverse xs) ++ z)
        (sym (keep-append (has_priority p) (r ∷ []) rs))

-- If the file can be read, the rules that `ListRouteRulesForNode` returns are in the order of their priorities, and those of
-- any one priority are the node's rules of that priority in the order in which they are stored: no
-- rule is lost, added or repeated, and the sort is stable.
pub list_rules-IsOrdered :
    (node : String) (p : ℤ) (d : Disk) (sf : StoreFile) (rs : List RouteRule)
    → d.content ≡ holds sf
    → list_route_rules_for_node node d ≡ ok rs
    → IsOrdered rs
      × (keep (has_priority p) rs
          ≡ keep (has_priority p) (keep (λ r. r.node_id =s node) sf.route_rules))
unfolding list_route_rules_for_node
list_rules-IsOrdered node p d sf rs c e =
    let mine = keep (λ r. r.node_id =s node) sf.route_rules in
    let same : rs ≡ rules_of node sf = sym (ok-injective (sym (query-holds _ _ d c) ∙ e)) in
    rw same (
      reverse-IsOrdered (sort_onto [] mine) (sort_onto-IsDescending mine [] tt),
      keep-sort_onto p mine [],
    )
