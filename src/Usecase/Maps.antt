-- ===== src/Usecase/Maps.antt =====
-- Backend/usecase/map_catalog.go: the maps that the server knows, and the manifest of their releases.
use Prim.Native.Nat.{Ordering}
use Prim.Native.String.{compare}
use g_server.Common.{
  List, map, if◌then◌else◌, String, ◌≡◌, refl, subst, inl, inr, Bool, true, false, ◌&&◌, Option,
  none, some, [], ◌∷◌, arith, ◌==◌, number_key, text_key, Bool-cases, Dict, lookup,
}
use g_server.Domain.{
  default_map, default_map_content, default_map_authority, forest_map, forest_map_content,
  forest_map_authority, default_api_version, default_min_engine_version,
}

pub record MapDefinition : Type 0 where
  pub id : String
  pub content_version : String
  pub authority_version : String
  pub api_version : String
  pub min_engine_version : String
  pub package_url : String
  pub sha256 : String
  pub signature : String

pub record MapPackage : Type 0 where
  pub id : String
  pub content_version : String
  pub authority_version : String
  pub api_version : String
  pub min_engine_version : String
  pub url : String
  pub sha256 : String
  pub signature : String

abbrev default_definition : MapDefinition
default_definition = record {
  id = default_map;
  content_version = default_map_content;
  authority_version = default_map_authority;
  api_version = default_api_version;
  min_engine_version = default_min_engine_version;
  package_url = "";
  sha256 = "";
  signature = "";
}

abbrev forest_definition : MapDefinition
forest_definition = record {
  id = forest_map;
  content_version = forest_map_content;
  authority_version = forest_map_authority;
  api_version = default_api_version;
  min_engine_version = default_min_engine_version;
  package_url = "";
  sha256 = "";
  signature = "";
}

abbrev pub map_catalog : Dict MapDefinition
map_catalog = (default_map, default_definition) ∷ (forest_map, forest_definition) ∷ []

unfoldable pub map_definition_for : String → Option MapDefinition
map_definition_for id = lookup id map_catalog

unfoldable pub valid_map : String → String → String → Bool
valid_map id content_version authority_version = elim (lookup id map_catalog) [
  | none ↦ false
  | some m ↦ m.content_version == content_version && m.authority_version == authority_version
]

abbrev pub is_before : String → String → Bool
is_before s t = elim (compare s t) [ Ordering.gt ↦ false | _ ↦ true ]

unfoldable pub insert_id : String → List String → List String
insert_id s [] = s ∷ []
insert_id s (t ∷ ts) = let rest = insert_id s ts in if is_before s t then s ∷ t ∷ ts else t ∷ rest

-- `sort.Strings` of the keys, in whatever order the map gives them.
unfoldable pub map_ids : List String → List String
unfolding insert_id
map_ids [] = []
map_ids (id ∷ ids) = insert_id id (map_ids ids)

-- The zero value, for a key that the map does not have.
abbrev no_map : MapDefinition
no_map = record {
  id = "";
  content_version = "";
  authority_version = "";
  api_version = "";
  min_engine_version = "";
  package_url = "";
  sha256 = "";
  signature = "";
}

abbrev pub map_or_zero : Option MapDefinition → MapDefinition
map_or_zero none = no_map
map_or_zero (some m) = m

abbrev pub package_of : MapDefinition → MapPackage
package_of m = record {
  id = m.id;
  content_version = m.content_version;
  authority_version = m.authority_version;
  api_version = m.api_version;
  min_engine_version = m.min_engine_version;
  url = m.package_url;
  sha256 = m.sha256;
  signature = m.signature;
}

-- `keys` are those of the catalog, in the order in which `range` visits them.
unfoldable pub map_packages : List String → List MapPackage
unfolding map_ids
map_packages keys = map (λ id. package_of (map_or_zero (lookup id map_catalog))) (map_ids keys)

-- A map of the catalog passes its own check.
pub map_definition_for-valid_map :
    (id : String) {m : MapDefinition}
    → map_definition_for id ≡ some m
    → valid_map m.id m.content_version m.authority_version ≡ true
unfolding map_definition_for valid_map lookup
map_definition_for-valid_map id {m} h = elim (Bool-cases (default_map == id)) [
  | inl here ↦
      let e : default_definition ≡ m = ground arith in
      subst (λ (d : MapDefinition). valid_map d.id d.content_version d.authority_version ≡ true) e
        refl
  | inr there ↦ elim (Bool-cases (forest_map == id)) [
    | inl here ↦
        let e : forest_definition ≡ m = ground arith in
        subst (λ (d : MapDefinition). valid_map d.id d.content_version d.authority_version ≡ true) e
          refl
    | inr nowhere ↦ absurd (ground arith)
  ]
]
