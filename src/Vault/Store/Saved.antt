-- ===== src/Vault/Store/Saved.antt =====
-- internal/vault/manifest.go: the manifest files that the vault writes are the ones that it reads:
-- `saveManifestRecord`, and one file of the walk of `loadManifestIndex`.
use Prim.Native.String.{String, ◌++◌ as append}
use open_seavault_rclone.Shared.{◌≡◌, arith, refl, ◌∙◌, false, some, length}
use open_seavault_rclone.Shared.Result.{ok}
use open_seavault_rclone.Vault.Manifest.{ManifestRecord}
use open_seavault_rclone.Vault.Objects.{Bytes, encode_encrypted, decode_encrypted}
use open_seavault_rclone.Vault.Objects.RoundTrip.{decode-encode}
use open_seavault_rclone.Vault.Path.{is_blank}
use open_seavault_rclone.Vault.Store.{
  Codec, StoredFile, manifest_magic, before_marker, decrypt_manifest, manifest_id, stored_file,
  manifest_id_from_file_name, opened_manifest,
}
use open_seavault_rclone.Vault.Store.Load.{found, visit}
use open_seavault_rclone.Vault.Store.Name.{IsId, before-id, id-not_blank, id_of_name}

-- An AEAD opens what it sealed, encoding/json reads the record that it wrote, an HMAC-SHA256 in hexadecimal has
-- sixty-four digits, and a nonce is drawn with the size that the AEAD asks for.
pub record IsCodec (k : Codec) (rec : ManifestRecord) : Type 0 where
  pub unseal-seal :
      (id : String) (nonce plain : Bytes) → k.unseal id nonce (k.seal id nonce plain) ≡ some plain
  pub unmarshal-marshal : k.unmarshal (k.marshal rec) ≡ some rec
  pub ids : (text : String) → IsId (k.hmac_hex text)
  pub drawn : length k.nonce ≡ k.nonce_size

-- The two reads by what their calls give.
decrypt-decoded :
    (k : Codec) (bytes nonce ct : Bytes) (id : String)
    → decode_encrypted manifest_magic k.nonce_size bytes ≡ ok (nonce, ct)
    → decrypt_manifest k bytes id ≡ opened_manifest k id (nonce, ct)
unfolding decrypt_manifest
decrypt-decoded k bytes nonce ct id e = rw (e, decrypt_manifest) refl

opened-unsealed :
    (k : Codec) (id : String) (nonce ct plain : Bytes)
    → k.unseal id nonce ct ≡ some plain
    → opened_manifest k id (nonce, ct) ≡ k.unmarshal plain
opened-unsealed k id nonce ct plain e = rw (e, opened_manifest) refl

visit-found :
    (k : Codec) (source id : String) (f : StoredFile) (rec : ManifestRecord)
    → before_marker f.name ≡ some id
    → manifest_id_from_file_name f.name ≡ id
    → is_blank id ≡ false
    → decrypt_manifest k f.bytes id ≡ some rec
    → is_blank rec.path ≡ false
    → visit k source f ≡ found (record { rec = rec; id = id; name = f.name; source = source })
unfolding visit
visit-found k source id f rec e0 e1 e2 e3 e4 = ground (arith, e0, e1, e2, e3, e4)

pub decrypt-stored :
    (k : Codec) (id : String) (rec : ManifestRecord)
    → IsCodec k rec
    → decrypt_manifest k (stored_file k id rec).bytes id ≡ some rec
unfolding stored_file
decrypt-stored k id rec c =
    let ct = k.seal id k.nonce (k.marshal rec) in
    let parts : decode_encrypted manifest_magic k.nonce_size
          (encode_encrypted manifest_magic k.nonce ct)
        ≡ ok (k.nonce, ct) =
      rw c.drawn at (decode-encode manifest_magic k.nonce ct) in
    decrypt-decoded k (encode_encrypted manifest_magic k.nonce ct) k.nonce ct id parts
    ∙ (opened-unsealed k id k.nonce ct (k.marshal rec) (c.unseal-seal id k.nonce (k.marshal rec))
        ∙ c.unmarshal-marshal)

-- The walk finds a written record under its path's id.
pub visit-stored :
    (k : Codec) (source path : String) (rec : ManifestRecord)
    → IsCodec k rec
    → is_blank rec.path ≡ false
    → visit k source (stored_file k (manifest_id k path) rec)
      ≡ found (record {
        rec = rec;
        id = manifest_id k path;
        name = append (manifest_id k path) ".manifest";
        source = source;
      })
unfolding manifest_id stored_file
visit-stored k source path rec c blank =
    let id = k.hmac_hex (append "manifest:" path) in
    let i = c.ids (append "manifest:" path) in
    visit-found k source id (stored_file k id rec) rec (before-id id i.digits) (id_of_name id i)
      (id-not_blank id i) (decrypt-stored k id rec c) blank
