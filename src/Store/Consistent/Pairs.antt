-- ===== src/Store/Consistent/Pairs.antt =====
-- The edits that keep two rows apart: links, route rules and users.
use angry_box.Prelude.{
  ◌≡◌, ◌↔◌, refl, String, Bool, true, false, List, [], ◌∷◌, none, arith, ◌=s◌, =s_iff, =s_refl, any,
  if◌then◌else◌, Bool-cases, Option-cases, inl, inr, upsert, upsert-KeysDistinct,
  remove_first-KeysDistinct, has_key, first, is_empty,
}
use angry_box.Prelude.Apart.{Apart-upsert, Apart-remove_first, any-upsert}
use angry_box.Model.Base.{ConnectionLink}
use angry_box.Model.Panel.{User}
use angry_box.Store.{StoreFile}
use angry_box.Store.Routes.{rule_id, drop_rule, link_id, same_edge, put_link, drop_link}
use angry_box.Store.Users.{user_id, put_user, clash_with, first_clash, has_mtproxy}
use angry_box.Store.Consistent.{IsConsistent, share_secret, share_node}
use angry_box.Store.Consistent.Edits.{Keeps, keeps_of_eq, keeps_if}

pub drop_rule-Keeps : (id : String) → Keeps (drop_rule id)
drop_rule-Keeps id sf sf' e =
    keeps_if (has_key rule_id id sf.route_rules) _ e refl
      (λ c. assumption (remove_first-KeysDistinct rule_id id sf.route_rules c.rules_distinct))

pub drop_link-Keeps : (id : String) → Keeps (drop_link id)
drop_link-Keeps id sf sf' e = keeps_if (has_key link_id id sf.links) _ e refl (λ c. assumption (
  remove_first-KeysDistinct link_id id sf.links c.links_distinct,
  Apart-remove_first link_id same_edge id sf.links c.edges_apart,
))

=s_symm : (a b : String) → (a =s b) ≡ (b =s a)
=s_symm a b = ground (arith, =s_iff a b, =s_iff b a)

same_edge_symm : (x y : ConnectionLink) → same_edge x y ≡ same_edge y x
same_edge_symm x y = ground (
  arith,
  =s_symm x.from_node_id y.from_node_id,
  =s_symm x.to_node_id y.to_node_id,
  =s_symm x.chain_name y.chain_name,
  =s_symm x.id y.id,
)

same_edge_self : (x : ConnectionLink) → same_edge x x ≡ false
same_edge_self x = ground (arith, =s_refl x.id)

pub put_link-Keeps : (l : ConnectionLink) → Keeps (put_link l)
put_link-Keeps l sf sf' e = elim (Bool-cases (any (same_edge l) sf.links)) [
  | inl twin ↦ absurd (ground arith)
  | inr free ↦ keeps_of_eq (rw free at e) refl (λ c. assumption (
    upsert-KeysDistinct link_id l sf.links c.links_distinct,
    Apart-upsert link_id same_edge same_edge_symm l sf.links
        (any-upsert link_id (same_edge l) l sf.links free (same_edge_self l)) c.edges_apart,
  ))
]

-- The loops of the secret check find a node exactly if there is one.
first-any {ℓ} :
    {A : Type ℓ} (test : A → Bool) (xs : List A) → (first test xs ≡ none) ↔ (any test xs ≡ false)
first-any test [] = ground arith
first-any test (x ∷ xs) = ground (arith, first-any test xs)

share_node-cons :
    (y : String) (xs ys : List String)
    → share_node xs (y ∷ ys) ≡ (if any (λ x. x =s y) xs then true else share_node xs ys)
share_node-cons y [] ys = refl
share_node-cons y (x ∷ xs) ys = ground (arith, =s_symm x y, share_node-cons y xs ys)

share_node-nil : (xs : List String) → share_node xs [] ≡ false
share_node-nil [] = refl
share_node-nil (x ∷ xs) = share_node-nil xs

share_node_symm : (xs ys : List String) → share_node xs ys ≡ share_node ys xs
share_node_symm xs [] = share_node-nil xs
share_node_symm xs (y ∷ ys) = ground (arith, share_node-cons y xs ys, share_node_symm xs ys)

share_secret_symm : (u v : User) → share_secret u v ≡ share_secret v u
share_secret_symm u v = ground (
  arith,
  =s_symm u.id v.id,
  =s_iff u.mtproxy_secret v.mtproxy_secret,
  =s_iff v.mtproxy_secret u.mtproxy_secret,
  =s_iff u.mtproxy_secret "",
  =s_iff v.mtproxy_secret "",
  share_node_symm u.mtproxy_nodes v.mtproxy_nodes,
)

clash_with-share : (u v : User) → clash_with u v ≡ none → share_secret u v ≡ false
clash_with-share u v h = ground (
  arith,
  =s_symm u.id v.id,
  =s_symm u.mtproxy_secret v.mtproxy_secret,
  first-any (λ x. any (λ y. y =s x) v.mtproxy_nodes) u.mtproxy_nodes,
)

first_clash-share :
    (u : User) (vs : List User) → first_clash u vs ≡ none → any (share_secret u) vs ≡ false
first_clash-share u [] h = refl
first_clash-share u (v ∷ vs) h =
    ground (arith, clash_with-share u v, first_clash-share u vs, Option-cases (clash_with u v))

share_node-empty : (xs ys : List String) → is_empty xs ≡ true → share_node xs ys ≡ false
share_node-empty [] ys h = refl
share_node-empty (x ∷ xs) ys h = absurd (cc)

no_mtproxy-share :
    (u : User) (vs : List User) → has_mtproxy u ≡ false → any (share_secret u) vs ≡ false
no_mtproxy-share u [] h = refl
no_mtproxy-share u (v ∷ vs) h =
    ground (arith, no_mtproxy-share u vs h, share_node-empty u.mtproxy_nodes v.mtproxy_nodes)

users-IsConsistent :
    (u : User) (sf : StoreFile)
    → any (share_secret u) (upsert user_id u sf.users) ≡ false
    → IsConsistent sf
    → IsConsistent (record sf { users = upsert user_id u sf.users })
users-IsConsistent u sf h c = assumption (
  upsert-KeysDistinct user_id u sf.users c.users_distinct,
  Apart-upsert user_id share_secret share_secret_symm u sf.users h c.secrets_apart,
)

pub put_user-Keeps : (u : User) → Keeps (put_user u)
put_user-Keeps u sf sf' e = elim (Bool-cases (has_mtproxy u)) [
  | inl secret ↦ elim (Option-cases (first_clash u (upsert user_id u sf.users))) [
    | inl free ↦
        keeps_of_eq (rw free at (rw secret at e)) refl
          (users-IsConsistent u sf (first_clash-share u (upsert user_id u sf.users) free))
    | inr (n, clash) ↦ absurd (ground arith)
  ]
  | inr bare ↦
      keeps_of_eq (rw bare at e) refl
        (users-IsConsistent u sf (no_mtproxy-share u (upsert user_id u sf.users) bare))
]
