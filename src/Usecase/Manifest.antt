-- ===== src/Usecase/Manifest.antt =====
-- Backend/usecase/map_catalog.go and service.go: the manifest of the maps, and what a ticket takes
-- from the catalog.
use g_server.Common.{
  ℕ, String, Bool, true, false, Option, none, some, List, [], ◌∷◌, ◌≡◌, ◌⊎◌, refl, arith, find,
  ◌==◌, text_key, Bool-cases, inl, inr, lookup, text_iff, ◌&&◌, ap, ◌∙◌, subst,
}
use g_server.Domain.{default_map, forest_map}
use g_server.Usecase.Maps.{
  MapPackage, map_packages, map_ids, insert_id, map_definition_for, valid_map,
}
use g_server.Usecase.Service.{ticket, ticket_for_map}
use g_server.Libs.{Libs}
use g_server.Store.{Link, Db}

-- The keys of the catalog in an order that `range` may visit them in.
abbrev pub IsRange : List String → Type 0
IsRange keys = (keys ≡ default_map ∷ forest_map ∷ []) ⊎ (keys ≡ forest_map ∷ default_map ∷ [])

abbrev pub is_there : {A : Type 0} → Option A → Bool
is_there none = false
is_there (some a) = true

-- The manifest has the map with this content and authority.
abbrev pub is_listed : String → String → String → List MapPackage → Bool
is_listed id content authority packages = is_there (
    find
      (λ (p : MapPackage).
        p.id == id && p.content_version == content && p.authority_version == authority)
      packages)

-- The manifest is in the order of the ids, whatever order `range` takes.
map_packages-order :
    (keys : List String)
    → IsRange keys
    → map_packages keys ≡ map_packages (default_map ∷ forest_map ∷ [])
unfolding map_packages map_ids insert_id
map_packages-order keys (inl e) = ap map_packages e
map_packages-order keys (inr e) = ap map_packages e ∙ refl

listed :
    (id content authority : String)
    → is_listed id content authority (map_packages (default_map ∷ forest_map ∷ []))
      ≡ valid_map id content authority
unfolding map_packages map_ids insert_id valid_map lookup find
listed id content authority = elim (Bool-cases (default_map == id)) [
  | inl valley ↦
      let no_forest =
        subst (λ (s : String). (forest_map == s) ≡ false) ((text_iff default_map id).0 valley)
          refl in
      ground (arith, valley, no_forest)
  | inr other ↦ elim (Bool-cases (forest_map == id)) [
    | inl forest ↦ ground (arith, other, forest)
    | inr unknown ↦ ground (arith, other, unknown)
  ]
]

-- In whatever order `range` visits the catalog, the manifest is the same list, and it has just the
-- maps, contents and authorities that ValidMap accepts.
pub map_packages-valid_map :
    (keys : List String) (id content authority : String)
    → IsRange keys
    → (map_packages keys ≡ map_packages (default_map ∷ forest_map ∷ []))
      × (is_listed id content authority (map_packages keys) ≡ valid_map id content authority)
map_packages-valid_map keys id content authority range =
    let same = map_packages-order keys range in (same, rw same (listed id content authority))

-- `Ticket`, which names the default map by its constants, does what `TicketForMap` does with the
-- default map of the catalog.
pub ticket-ticket_for_map :
    (lib : Libs) (link : Link) (player session_hash p c : String) (n : ℕ) (token : String) (now : ℕ)
    (db : Db)
    → ticket lib link player session_hash p c n token now db
      ≡ ticket_for_map lib link player session_hash p c default_map n token now db
unfolding ticket ticket_for_map map_definition_for lookup
ticket-ticket_for_map lib link player session_hash p c n token now db = refl
