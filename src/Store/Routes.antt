-- ===== src/Store/Routes.antt =====
-- The `route_rules` and `links` tables of internal/chain/store.go.
pub mod Sorting
use mathlib.Core.List.{reverse}
use angry_box.Prelude.{
  String, Bool, not, ◌&&◌, List, [], ◌∷◌, ◌=s◌, if◌then◌else◌, any, keep, find_by, upsert,
  remove_first, has_key,
}
use angry_box.Prelude.Int.{ltb_ℤ}
use angry_box.Model.Base.{Time, RouteRule, ConnectionLink}
use angry_box.Store.{
  StoreFile, read_failed, rule_not_found, link_not_found, link_exists, Result, ok, err, Disk, M,
  new_store_file, update, query, found, stamp,
}

abbrev pub rule_id : RouteRule → String
rule_id r = r.id

-- `newID()` where the value has no identifier yet; `fresh` is the identifier that it makes.
abbrev pub named : String → String → String
named fresh id = if id =s "" then fresh else id

abbrev pub put_rule : RouteRule → StoreFile → Result StoreFile
put_rule r sf = ok (record sf { route_rules = upsert rule_id r sf.route_rules })

-- `SaveRouteRule`
unfoldable pub save_route_rule : RouteRule → String → Time → M (Unit {0})
save_route_rule r fresh now =
    update (ok new_store_file)
      (put_rule (record r { id = named fresh r.id; created_at = stamp now r.created_at }))

-- One round of the sort: the rule moves down from the end of the sorted rules, which stand here
-- last first, past those of a higher priority.
unfoldable pub sink : RouteRule → List RouteRule → List RouteRule
sink r [] = r ∷ []
sink r (x ∷ xs) = if ltb_ℤ r.priority x.priority then x ∷ sink r xs else r ∷ x ∷ xs

abbrev pub sort_onto : List RouteRule → List RouteRule → List RouteRule
sort_onto done [] = done
sort_onto done (r ∷ rs) = sort_onto (sink r done) rs

abbrev pub rules_of : String → StoreFile → List RouteRule
rules_of node sf = reverse (sort_onto [] (keep (λ r. r.node_id =s node) sf.route_rules))

-- `ListRouteRulesForNode`
unfoldable pub list_route_rules_for_node : String → Disk → Result (List RouteRule)
list_route_rules_for_node node = query (ok []) (λ sf. ok (rules_of node sf))

abbrev pub drop_rule : String → StoreFile → Result StoreFile
drop_rule id sf =
    if has_key rule_id id sf.route_rules
    then ok (record sf { route_rules = remove_first rule_id id sf.route_rules })
    else err (rule_not_found id)

-- `DeleteRouteRule`
unfoldable pub delete_route_rule : String → M (Unit {0})
delete_route_rule id = update (err read_failed) (drop_rule id)

abbrev pub link_id : ConnectionLink → String
link_id l = l.id

-- The same edge of the same chain under another identifier.
abbrev pub same_edge : ConnectionLink → ConnectionLink → Bool
same_edge l ex =
    ex.from_node_id =s l.from_node_id
    && ex.to_node_id =s l.to_node_id
    && ex.chain_name =s l.chain_name
    && not (ex.id =s l.id)

abbrev pub put_link : ConnectionLink → StoreFile → Result StoreFile
put_link l sf =
    if any (same_edge l) sf.links
    then err (link_exists l.from_node_id l.to_node_id l.chain_name)
    else ok (record sf { links = upsert link_id l sf.links })

-- `SaveLink`
unfoldable pub save_link : ConnectionLink → String → M (Unit {0})
save_link l fresh = update (ok new_store_file) (put_link (record l { id = named fresh l.id }))

-- `ListLinks`
unfoldable pub list_links : Disk → Result (List ConnectionLink)
list_links = query (ok []) (λ sf. ok sf.links)

abbrev pub links_in : String → Result (List ConnectionLink) → Result (List ConnectionLink)
links_in chain (ok ls) = ok (keep (λ l. l.chain_name =s chain) ls)
links_in chain (err e) = err e

-- `ListLinksForChain`
unfoldable pub list_links_for_chain : String → Disk → Result (List ConnectionLink)
unfolding list_links
list_links_for_chain chain d = links_in chain (list_links d)

-- `GetLink`
unfoldable pub get_link : String → Disk → Result ConnectionLink
get_link id =
    query (err read_failed) (λ sf. found (link_not_found id) (find_by link_id id sf.links))

abbrev pub drop_link : String → StoreFile → Result StoreFile
drop_link id sf =
    if has_key link_id id sf.links
    then ok (record sf { links = remove_first link_id id sf.links })
    else err (link_not_found id)

-- `DeleteLink`
unfoldable pub delete_link : String → M (Unit {0})
delete_link id = update (err read_failed) (drop_link id)
