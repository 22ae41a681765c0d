-- ===== src/Store/Users/Laws.antt =====
-- Users written and found again.
use angry_box.Prelude.{
  ◌≡◌, refl, sym, ap, String, ◌=s◌, if◌then◌else◌, Bool-cases, inl, inr, Option, none, some, upsert,
}
use angry_box.Model.Base.{Time}
use angry_box.Model.Panel.{User}
use angry_box.Store.{StoreFile, ok, Disk, stamp, user_not_found}
use angry_box.Store.Laws.{IsTable, query-update, ok-injective}
use angry_box.Store.Users.{
  user_id, put_user, save_user, get_user, first_clash, refuse_clash, has_mtproxy,
}

put_user-users :
    (u : User) (sf sf' : StoreFile) → put_user u sf ≡ ok sf' → sf'.users ≡ upsert user_id u sf.users
put_user-users u sf sf' e = elim (Bool-cases (has_mtproxy u)) [
  | inl secret ↦ go (first_clash u (upsert user_id u sf.users)) (rw secret at e)
  | inr bare ↦ ap (λ s. s.users) (sym (ok-injective (rw bare at e)))
]
  where
    go :
        (o : Option String)
        → refuse_clash o (ok (record sf { users = upsert user_id u sf.users })) ≡ ok sf'
        → sf'.users ≡ upsert user_id u sf.users
    go none h = ap (λ s. s.users) (sym (ok-injective h))
    go (some n) h = absurd (cc)

users-IsTable : IsTable user_id (λ sf. sf.users) put_user
users-IsTable = record { empty = refl; bumped = λ sf. refl; written = put_user-users }

-- After `SaveUser` succeeded `GetUser` finds the saved user, with the time of the call as the time
-- of creation if there was none, and under every other identifier what it found before.
pub get_user-save_user :
    (u : User) (now : Time) (k : String) (d d' : Disk)
    → save_user u now d ≡ (ok tt, d')
    → get_user k d'
      ≡ (if u.id =s k then ok (record u { created_at = stamp now u.created_at }) else get_user k d)
unfolding save_user get_user
get_user-save_user u now k d d' e =
    query-update user_id (λ sf. sf.users) put_user users-IsTable user_not_found
      (record u { created_at = stamp now u.created_at }) k d d' e
