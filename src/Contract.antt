-- ===== src/Contract.antt =====
-- The core's contract package (backend/pkg/catalog) and the libraries, as far as modules/ calls
-- them: their data with the fields that the code reads, and their functions as the fields of a
-- record, which every definition that uses them takes. Nothing is assumed of a function here; a
-- theorem that needs a documented law of one has it as a hypothesis.
use Prim.Native.Char.{Char}
use appstore_gerege_nexus.Prelude.{String, Bool, List, Option}
use appstore_gerege_nexus.Tables.{Time, Json, AppText, AppRow}

-- catalog.ExternalSpec
pub record ExternalSpec : Type 0 where
  pub launch_url : String
  pub sso_client_id : String
  pub scopes : List String
  pub embed : String
  pub health_url : String

-- catalog.Manifest. Release notes, authors and the rest of it stay JSON texts.
pub record Manifest : Type 0 where
  pub id : String
  pub version : String
  pub manifest_type : String
  pub platform : String
  pub external : Option ExternalSpec
  pub release_notes : Option Json
  pub authors : List Json
  pub rest : Json

-- catalog.CatalogApp
pub record CatalogApp : Type 0 where
  pub id : String
  pub slug : String
  pub name : String
  pub description : String
  pub icon_url : String
  pub category : String
  pub visibility : String
  pub version : String
  pub manifest : Manifest
  pub translations : List (String × AppText)

-- The constants of the contract package.
abbrev pub type_module : String
type_module = "module"

abbrev pub type_external : String
type_external = "external"

abbrev pub visibility_public : String
visibility_public = "public"

abbrev pub visibility_private : String
visibility_private = "private"

pub record Contract : Type 0 where
  -- semver.NewVersion(s) returns no error
  pub is_version : String → Bool
  -- NewConstraint(c) and Check of the version; `none` where the constraint does not parse
  pub check : String → String → Option Bool
  -- catalog.IsNewerVersion(candidate, held)
  pub is_newer : String → String → Bool
  pub is_valid_slug : String → Bool
  -- catalog.ValidateManifest and ValidateCatalog: the error's text
  pub validate_manifest : Manifest → String → Option String
  pub validate_catalog : List CatalogApp → String → Option String
  -- m.IsExternal()
  pub is_external : Manifest → Bool
  -- json.Marshal and json.Unmarshal at the types they are called at
  pub encode_manifest : Manifest → Option Json
  pub decode_manifest : Json → Option Manifest
  pub encode_authors : List Json → Option Json
  pub decode_note : Json → Option Json
  -- what json.Unmarshal leaves in a nil []string, whether or not it fails
  pub decode_names : Json → List String
  pub encode_apps : List CatalogApp → Option Json
  pub encode_document : String → String → Json → String → Option Json
  -- manifest -> 'k' and manifest ->> 'k' of the database
  pub json_get : Json → String → Option Json
  pub json_text : Json → String → Option String
  -- time.RFC3339 of a time in UTC
  pub format_time : Time → String
  -- hex of SHA-256
  pub sha256 : String → String
  -- base64.StdEncoding.DecodeString and the lengths and keys of crypto/ed25519
  pub decode_base64 : String → Option (List Char)
  pub key_of_seed : List Char → List Char
  pub public_of : List Char → String
  pub sign_base64 : List Char → String → String
  -- the order of texts under the database's collation, for ORDER BY
  pub collate : String → String → Bool
  -- a unique constraint of store_apps, other than its key, that the two rows break together
  pub app_collides : AppRow → AppRow → Bool
  -- unicode.ToLower outside ASCII
  pub lower : Char → Char
