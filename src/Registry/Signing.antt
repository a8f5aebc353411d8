-- ===== src/Registry/Signing.antt =====
-- The signer and the signed document of modules/registry/catalog.go. The cryptography, base64 and
-- the JSON encoder are the contract's.
use Prim.Native.Char.{Char}
use Prim.Native.String
use appstore_gerege_nexus.Prelude.{
  ◌*◌, String, List, Option, none, some, eqb, length, if◌then◌else◌,
}
use appstore_gerege_nexus.Tables.{Time, Json}
use appstore_gerege_nexus.Contract.{Contract, CatalogApp}
use appstore_gerege_nexus.World.{Result, ok, err, failure}

pub record Signer : Type 0 where
  pub key_id : String
  pub private : List Char

-- time.Unix(0, 0), in nanoseconds since Go's zero time.
abbrev pub unix_epoch : Time
unix_epoch = 62135596800 * 1000000000

module _ (k : Contract) where
  -- ed25519.PrivateKeySize is 64, and SeedSize is 32.
  abbrev signer_of : String → Option (List Char) → Result Signer
  signer_of key_id none = err (failure "decode signing key")
  signer_of key_id (some raw) =
      if eqb (length raw) 64
      then ok (record { key_id = key_id; private = raw })
      else if eqb (length raw) 32
      then ok (record { key_id = key_id; private = k.key_of_seed raw })
      else err (failure "signing key length")

  -- NewSigner
  unfoldable pub new_signer : String → String → Result Signer
  new_signer key_id encoded = signer_of key_id (k.decode_base64 encoded)

  -- PublicKey
  unfoldable pub public_key : Signer → String
  public_key s = k.public_of s.private

  -- The bytes under a signature: the stamp, a newline and the apps.
  abbrev pub signed_message : String → Json → String
  signed_message generated_at apps = String.◌++◌ generated_at (String.◌++◌ "\n" apps)

  -- Sign
  unfoldable pub sign : Signer → String → Json → String
  sign s generated_at apps = k.sign_base64 s.private (signed_message generated_at apps)

  -- The stamp that a document carries: a zero time becomes the epoch.
  abbrev pub stamped : Time → Time
  stamped generated_at = if eqb generated_at 0 then unix_epoch else generated_at

  abbrev document_of : Time → Option Json → Result (Json × Time)
  document_of generated_at none = err (failure "marshal document")
  document_of generated_at (some d) = ok (d, generated_at)

  abbrev sign_apps : Signer → Time → Option Json → Result (Json × Time)
  sign_apps signer generated_at none = err (failure "marshal apps")
  sign_apps signer generated_at (some apps) =
      let stamp = k.format_time generated_at in
      document_of generated_at (k.encode_document stamp signer.key_id apps (sign signer stamp apps))

  -- SignDocument
  unfoldable pub sign_document : Signer → Time → List CatalogApp → Result (Json × Time)
  unfolding sign
  sign_document signer generated_at apps =
      sign_apps signer (stamped generated_at) (k.encode_apps apps)
