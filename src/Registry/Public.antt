-- ===== src/Registry/Public.antt =====
-- The public endpoints of modules/registry/public.go, and the two operator endpoints beside them.
-- `signer` is what New made of the environment: without one there is no catalogue.
pub mod Rebuild
use appstore_gerege_nexus.Prelude.{
  ℕ, String, Bool, true, false, not, ◌&&◌, List, [], ◌∷◌, Option, none, some, ◌==◌, if◌then◌else◌,
}
use appstore_gerege_nexus.Tables.{Time, Json, AppText, Snapshot, ExternalRegistration}
use appstore_gerege_nexus.Contract.{Contract, Manifest}
use appstore_gerege_nexus.World.{
  Exec, Error, not_found, Result, ok, err, World, Reply, json, problem, Handler, respond, attempt,
  ignore, pure, ◌>>◌,
}
use appstore_gerege_nexus.Registry.Platforms.{
  Audience, anonymous, bearer_token, audience_for, touch_platform,
}
use appstore_gerege_nexus.Registry.Signing.{Signer, public_key}
use appstore_gerege_nexus.Registry.Build.{app_texts}
use appstore_gerege_nexus.Registry.Cache.{revision, discard_snapshots, catalog}
use appstore_gerege_nexus.Registry.Apps.{App, app_by_slug, list_apps}
use appstore_gerege_nexus.Registry.Versions.{
  Version, ChronicleEntry, list_versions, chronicle, external_registration,
}
use appstore_gerege_nexus.Registry.Headers.{etag_matches, locale_from}

pub record CatalogRequest : Type 0 where
  pub channel : String
  pub platform : String
  pub authorization : String
  pub if_none_match : String

-- The headers and the body of a catalogue's answer; a 304 has no body.
pub record CatalogAnswer : Type 0 where
  pub etag : String
  pub cache_control : String
  pub vary : String
  pub document : Option Json

-- The storefront's view of an app: created_by and updated_by are not in it.
pub record AppView : Type 0 where
  pub id : String
  pub slug : String
  pub app_type : String
  pub name : String
  pub description : String
  pub icon_url : String
  pub category : String
  pub publisher : String
  pub latest_version : String
  pub updated_at : Time
  pub authors : Json
  pub maintainers : Json
  pub repository : String
  pub homepage : String
  pub license : String
  pub translations : Option (List (String × AppText))

pub record AppPage : Type 0 where
  pub view : AppView
  pub versions : List Version
  pub manifest : Option Manifest
  pub external : Option ExternalRegistration

pub record ChroniclePage : Type 0 where
  pub app_id : String
  pub slug : String
  pub entries : List ChronicleEntry

pub record Key : Type 0 where
  pub key_id : String
  pub alg : String
  pub public : String

pub record RegistryState : Type 0 where
  pub revision : ℕ
  pub key_id : String
  pub public_key : String

abbrev pub bare_view : App → AppView
bare_view a = record {
  id = a.id;
  slug = a.slug;
  app_type = a.app_type;
  name = a.name;
  description = a.description;
  icon_url = a.icon_url;
  category = a.category;
  publisher = a.publisher_name;
  latest_version = a.latest_version;
  updated_at = a.updated_at;
  authors = a.authors;
  maintainers = a.maintainers;
  repository = a.repository;
  homepage = a.homepage;
  license = a.license;
  translations = none;
}

abbrev pub or_else : String → String → String
or_else s d = if s == "" then d else s

abbrev pub text_in : String → List (String × AppText) → Option AppText
text_in locale [] = none
text_in locale ((l, t) ∷ texts) =
    let rest = text_in locale texts in if l == locale then some t else rest

abbrev pub translated : Option AppText → AppView → AppView
translated none v = v
translated (some t) v = record v {
  name = or_else t.name v.name;
  description = or_else t.description v.description;
  category = or_else t.category v.category;
}

abbrev pub view_with : App → String → Result (List (String × AppText)) → AppView
view_with a locale (err e) = bare_view a
view_with a locale (ok texts) =
    translated (text_in locale texts) (record (bare_view a) { translations = some texts })

-- appView: an app whose translations cannot be read is rendered without them.
unfoldable pub app_view : App → String → World → AppView × World
unfolding app_texts
app_view a locale w = let (r, w') = app_texts a.id w in (view_with a locale r, w')

unfoldable pub app_views : List App → String → World → List AppView × World
unfolding app_view
app_views [] locale w = ([], w)
app_views (a ∷ rest) locale w =
    let (view, w') = app_view a locale w in
    let (views, w'') = app_views rest locale w' in (view ∷ views, w'')

abbrev pub cache_control_for : Bool → String
cache_control_for true = "public, max-age=60"
cache_control_for false = "private, max-age=60"

abbrev pub catalog_answer : Audience → Snapshot → Option Json → CatalogAnswer
catalog_answer audience s document = record {
  etag = s.etag;
  cache_control = cache_control_for (anonymous audience);
  vary = "Authorization";
  document = document;
}

-- What is written once the document is at hand.
unfoldable pub answer_catalog : String → Audience → Snapshot → Reply CatalogAnswer
unfolding etag_matches
answer_catalog if_none_match audience s =
    if not (if_none_match == "") && etag_matches if_none_match s.etag
    then json 304 (catalog_answer audience s none)
    else json 200 (catalog_answer audience s (some s.document))

abbrev pub first_manifest : List Version → Option Manifest
first_manifest [] = none
first_manifest (v ∷ vs) = some v.manifest

abbrev pub external_or_none : Result ExternalRegistration → Option ExternalRegistration
external_or_none (ok e) = some e
external_or_none (err e) = none

abbrev pub app_missing : {A : Type 0} → Error → Reply A
app_missing not_found = problem 404 "app not found"
app_missing _ = problem 500 "could not load the app"

unfoldable pub render_page : App → String → List Version → Handler AppPage
unfolding app_view external_registration
render_page a locale versions w =
    let (view, w') = app_view a locale w in
    let (external, w'') = external_registration a.id w' in
    (
      json 200 (record {
        view = view;
        versions = versions;
        manifest = first_manifest versions;
        external = external_or_none external;
      }),
      w'',
    )

module _ (k : Contract) where
  -- handleListApps
  unfoldable pub handle_list_apps : (locale accept_language : String) → Handler (List AppView)
  unfolding attempt list_apps app_views locale_from
  handle_list_apps locale accept_language =
      attempt (list_apps k "") (λ e. respond (problem 500 "could not list apps"))
        λ apps w.
          let (views, w') = app_views apps (locale_from k.lower locale accept_language) w in
          (json 200 views, w')

  -- handleGetApp
  unfoldable pub handle_get_app : (slug locale accept_language : String) → Handler AppPage
  unfolding attempt app_by_slug list_versions render_page locale_from
  handle_get_app slug locale accept_language =
      attempt (app_by_slug slug) (λ e. respond (app_missing e))
        λ a.
          attempt (list_versions k a.id true) (λ e. respond (problem 500 "could not load versions"))
            (render_page a (locale_from k.lower locale accept_language))

  -- handleListVersions
  unfoldable pub handle_list_versions : (slug : String) → Handler (List Version)
  unfolding attempt app_by_slug list_versions
  handle_list_versions slug =
      attempt (app_by_slug slug) (λ e. respond (app_missing e))
        λ a.
          attempt (list_versions k a.id true) (λ e. respond (problem 500 "could not load versions"))
            (λ versions. respond (json 200 versions))

  -- handleChronicle: any error of the first query is 404 here.
  unfoldable pub handle_chronicle : (slug : String) → Handler ChroniclePage
  unfolding attempt app_by_slug chronicle
  handle_chronicle slug =
      attempt (app_by_slug slug) (λ e. respond (problem 404 "app not found"))
        λ a.
          attempt (chronicle k a.id) (λ e. respond (problem 500 "could not load the chronicle"))
            λ entries.
              respond (json 200 (record { app_id = a.id; slug = a.slug; entries = entries }))

  abbrev pub no_catalogue : {A : Type 0} → Reply A
  no_catalogue = problem 503 "this instance does not publish an app catalogue"

  -- The checks of handleCatalog on its query.
  abbrev pub bad_platform : String → Bool
  bad_platform platform = not (platform == "") && not (k.is_version platform)

  abbrev pub bad_channel : String → Bool
  bad_channel channel =
      not (channel == "") && (not (channel == "stable") && not (channel == "beta"))

  -- `if !audience.Anonymous() { TouchPlatform }`
  unfoldable pub touch : Audience → Time → Exec (Unit {0})
  unfolding touch_platform ignore
  touch audience now =
      if anonymous audience then pure tt else ignore (touch_platform k audience.platform_id now)

  -- The part of handleCatalog behind the audience.
  unfoldable pub serve_catalog : Signer → CatalogRequest → Time → Audience → Handler CatalogAnswer
  unfolding attempt touch catalog answer_catalog
  serve_catalog signer r now audience =
      attempt (touch audience now >> catalog k signer r.channel r.platform audience now)
        (λ e. respond (problem 500 "could not build the catalog"))
        λ s. respond (answer_catalog r.if_none_match audience s)

  -- handleCatalog
  unfoldable pub handle_catalog : Option Signer → CatalogRequest → Time → Handler CatalogAnswer
  unfolding attempt audience_for serve_catalog
  handle_catalog none r now = respond no_catalogue
  handle_catalog (some signer) r now =
      if bad_platform r.platform
      then respond (problem 400 "platform must be a semver version, for example 1.0.0")
      else if bad_channel r.channel
      then respond (problem 400 "channel must be \"stable\" or \"beta\"")
      else attempt (audience_for k (bearer_token r.authorization))
          (λ e. respond (problem 500 "could not build the catalog")) (serve_catalog signer r now)

  -- handleKeys
  unfoldable pub handle_keys : Option Signer → Handler (List Key)
  unfolding public_key
  handle_keys none = respond no_catalogue
  handle_keys (some signer) = respond (
      json 200
        (record { key_id = signer.key_id; alg = "Ed25519"; public = public_key k signer } ∷ []))

  -- handleRegistryState
  unfoldable pub handle_registry_state : Option Signer → Handler RegistryState
  unfolding attempt revision public_key
  handle_registry_state none = respond no_catalogue
  handle_registry_state (some signer) =
      attempt revision (λ e. respond (problem 500 "could not read the registry state"))
        λ n. respond (
          json 200
            (record { revision = n; key_id = signer.key_id; public_key = public_key k signer }))

  -- handleRebuildSnapshots
  unfoldable pub handle_rebuild_snapshots : Option Signer → Handler ℕ
  unfolding attempt discard_snapshots
  handle_rebuild_snapshots none = respond no_catalogue
  handle_rebuild_snapshots (some signer) =
      attempt discard_snapshots (λ e. respond (problem 500 "could not discard the snapshots"))
        λ n. respond (json 200 n)
