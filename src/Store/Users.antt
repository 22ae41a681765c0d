-- ===== src/Store/Users.antt =====
-- The `users` table of internal/chain/store.go.
pub mod Laws
use angry_box.Prelude.{
  or_else, String, not, List, [], ◌∷◌, Option, none, some, ◌=s◌, if◌then◌else◌, first, any, keep,
  find_by, upsert, remove_by, has_key, is_empty, ◌&&◌, Bool,
}
use angry_box.Model.Base.{Time}
use angry_box.Model.Panel.{User}
use angry_box.Store.{
  StoreFile, read_failed, user_not_found, secret_used, token_empty, token_not_found, Result, ok,
  err, Disk, M, new_store_file, update, query, found, stamp,
}

abbrev pub user_id : User → String
user_id u = u.id

-- The first name of the one list that stands in the other (the two inner loops of the check).
abbrev pub first_common : List String → List String → Option String
first_common xs ys = first (λ x. any (λ y. y =s x) ys) xs

-- The first node on which another user has the secret of `u`.
abbrev pub clash_with : User → User → Option String
clash_with u ex =
    if ex.id =s u.id
    then none
    else if ex.mtproxy_secret =s u.mtproxy_secret
    then first_common u.mtproxy_nodes ex.mtproxy_nodes
    else none

abbrev pub first_clash : User → List User → Option String
first_clash u [] = none
first_clash u (ex ∷ exs) = or_else (clash_with u ex) (first_clash u exs)

abbrev pub refuse_clash : Option String → Result StoreFile → Result StoreFile
refuse_clash none r = r
refuse_clash (some n) r = err (secret_used n)

-- `u.MTProxySecret != "" && len(u.MTProxyNodes) > 0`
abbrev pub has_mtproxy : User → Bool
has_mtproxy u = not (u.mtproxy_secret =s "") && not (is_empty u.mtproxy_nodes)

-- The edit of `SaveUser`. The check walks the table with the new row in it.
abbrev pub put_user : User → StoreFile → Result StoreFile
put_user u sf =
    let users = upsert user_id u sf.users in
    let saved : Result StoreFile = ok (record sf { users = users }) in
    if has_mtproxy u then refuse_clash (first_clash u users) saved else saved

-- `SaveUser`
unfoldable pub save_user : User → Time → M (Unit {0})
save_user u now =
    update (ok new_store_file) (put_user (record u { created_at = stamp now u.created_at }))

-- `GetUser`
unfoldable pub get_user : String → Disk → Result User
get_user id =
    query (err (user_not_found id)) (λ sf. found (user_not_found id) (find_by user_id id sf.users))

-- `GetUserBySubscriptionToken`
unfoldable pub get_user_by_subscription_token : String → Disk → Result User
get_user_by_subscription_token token d =
    if token =s ""
    then err token_empty
    else query (err read_failed)
        (λ sf. found token_not_found (first (λ u. u.subscription_token =s token) sf.users)) d

-- `ListUsers`
unfoldable pub list_users : Disk → Result (List User)
list_users = query (ok []) (λ sf. ok sf.users)

abbrev pub drop_user : String → StoreFile → Result StoreFile
drop_user id sf =
    if has_key user_id id sf.users
    then ok (record sf { users = remove_by user_id id sf.users })
    else err (user_not_found id)

-- `DeleteUser`
unfoldable pub delete_user : String → M (Unit {0})
delete_user id = update (err read_failed) (drop_user id)

abbrev pub or_nil : Result (List User) → List User
or_nil (ok us) = us
or_nil (err e) = []

-- `ListMTProxyUsers`
unfoldable pub list_mtproxy_users : Disk → List User
unfolding list_users
list_mtproxy_users d = keep (λ u. not (u.mtproxy_secret =s "")) (or_nil (list_users d))

-- `ListMTProxyUsersForNode`
unfoldable pub list_mtproxy_users_for_node : String → Disk → List User
unfolding list_users
list_mtproxy_users_for_node id d =
    keep (λ u. any (λ n. n =s id) u.mtproxy_nodes) (or_nil (list_users d))
