-- ===== src/Security/Authority.antt =====
-- The simulated certificate authority and the SVIDs that it mints (common/identity.py), and the
-- credentials made of them (common/tls.py). Keys, signatures and the encoding of certificates are of
-- the `cryptography` library: a certificate is what its builder is given, and `none` is an exception.
use distributed_ai_networkin.Prelude.{
  String, ◌≡◌, refl, subst, inl, inr, Bool, true, Option, none, some, List, [], ◌∷◌, arith,
  if◌then◌else◌, Option-cases,
}
use distributed_ai_networkin.Security.Identity.{extract_spiffe_id}
use Prim.Native.String.{◌++◌ as ◌&◌}
use distributed_ai_networkin.Prelude.Floats.{literal, Floats, ◌≤ᶠ◌}
use mathlib.Core.Option
use distributed_ai_networkin.Interfaces.{Bytes}

-- The two files under .secret, `none` where there is no file.
pub record SecretFiles : Type 0 where
  pub key_file : Option Bytes
  pub cert_file : Option Bytes

-- `_get_or_create_shared_ca`, with the pair that `_generate_ca` gives if it is called
abbrev pub shared_ca :
    Option Bytes → Option Bytes → Bytes × Bytes → SecretFiles → (Bytes × Bytes) × SecretFiles
shared_ca (some key_bytes) (some cert_bytes) generated files = ((key_bytes, cert_bytes), files)
shared_ca none cert generated files =
    (generated, record { key_file = some generated.0; cert_file = some generated.1 })
shared_ca (some key_bytes) none generated files =
    (generated, record { key_file = some generated.0; cert_file = some generated.1 })

unfoldable pub get_or_create_shared_ca : Bytes × Bytes → SecretFiles → (Bytes × Bytes) × SecretFiles
get_or_create_shared_ca generated files = shared_ca files.key_file files.cert_file generated files

-- What the builder of a certificate is given, times in seconds.
pub record Certificate (F : Type 0) : Type 0 where
  pub common_name : String
  pub uris : List String
  pub dns_names : List String
  pub ip_addresses : List String
  -- the name of the issuer, and the key that signs
  pub issuer : String
  pub not_valid_before : F
  pub not_valid_after : F
  pub signed_with : Bytes

-- (private_key_pem, cert_chain_pem, ca_cert_pem)
pub record Svid (F : Type 0) : Type 0 where
  pub private_key : Bytes
  pub certificate : Certificate F
  pub ca_cert : Bytes

pub record ServerCredentials (F : Type 0) : Type 0 where
  pub svid : Svid F
  pub root_certificates : Bytes
  pub require_client_auth : Bool

pub record ChannelCredentials (F : Type 0) : Type 0 where
  pub svid : Svid F
  pub root_certificates : Bytes

-- What the module calls: whether `load_pem_private_key` loads a key, the subject that
-- `load_pem_x509_certificate` gives of a certificate, if it loads, and whether a name may be a
-- COMMON_NAME, which has a limit of length. `matches` tells whether the public key of a certificate is
-- that of a key, which is what decides on the signatures that are made with the key.
pub record CaLibraries : Type 0 where
  pub loads_key : Bytes → Bool
  pub subject_of : Bytes → Option String
  pub accepts_name : String → Bool
  pub matches : Bytes → Bytes → Bool

-- A key and a certificate that load and belong together, with the subject of the certificate.
pub record IsUsable (lib : CaLibraries) (ca : Bytes × Bytes) : Type 0 where
  pub subject : String
  pub key_loads : lib.loads_key ca.0 ≡ true
  pub cert_loads : lib.subject_of ca.1 ≡ some subject
  pub belongs : lib.matches ca.0 ca.1 ≡ true

-- A second call finds the files of the first.
pub shared_ca_again :
    (generated again : Bytes × Bytes) (files : SecretFiles)
    → let (ca, files') = get_or_create_shared_ca generated files in
      get_or_create_shared_ca again files' ≡ (ca, files')
unfolding get_or_create_shared_ca
shared_ca_again generated again files = by_files files.key_file files.cert_file refl refl
  where
    by_files :
        (k c : Option Bytes)
        → files.key_file ≡ k
        → files.cert_file ≡ c
        → get_or_create_shared_ca again (shared_ca k c generated files).1
          ≡ shared_ca k c generated files
    by_files (some k) (some c) e e' = rw (e, e') refl
    by_files none c e e' = refl
    by_files (some k) none e e' = refl

module _ {F : Type 0} ⦃fl : Floats F⦄ where
  -- what the builder of `get_svid` is given, with the generated key and the subject of the authority
  unfoldable pub certify : F → Bytes × Bytes → Bytes → String → String → Svid F
  certify now (ca_key, ca_cert) private_key spiffe_id subject = record {
    private_key = private_key;
    certificate = record {
      common_name = spiffe_id;
      uris = spiffe_id ∷ [];
      dns_names = "localhost" ∷ "test-node-1" ∷ "test-node-2" ∷ "wrong-node" ∷ [];
      ip_addresses = "127.0.0.1" ∷ "::1" ∷ [];
      issuer = subject;
      not_valid_before = fl.sub now (literal 300 0);
      not_valid_after = fl.add now (literal 3600 0);
      signed_with = ca_key;
    };
    ca_cert = ca_cert;
  }

  module _ (lib : CaLibraries) where
    unfoldable pub get_svid : F → Bytes × Bytes → Bytes → String → Option (Svid F)
    get_svid now ca private_key spiffe_id =
        if lib.accepts_name spiffe_id
        then Option.map (certify now ca private_key spiffe_id) (lib.subject_of ca.1)
        else none

    -- a new provider, and its SVID
    abbrev minted : F → Bytes × Bytes → Bytes → String → SecretFiles → Option (Svid F) × SecretFiles
    minted now generated private_key spiffe_id files =
        let (ca, files') = get_or_create_shared_ca generated files in
        (if lib.loads_key ca.0 then get_svid now ca private_key spiffe_id else none, files')

    abbrev server_of : Svid F → ServerCredentials F
    server_of svid = record {
      svid = svid;
      root_certificates = svid.ca_cert;
      require_client_auth = true;
    }

    abbrev client_of : Svid F → ChannelCredentials F
    client_of svid = record { svid = svid; root_certificates = svid.ca_cert }

    unfoldable pub get_server_credentials :
        F
        → Bytes × Bytes
        → Bytes
        → String
        → SecretFiles
        → Option (ServerCredentials F) × SecretFiles
    get_server_credentials now generated private_key spiffe_id files =
        let (svid, files') = minted now generated private_key spiffe_id files in
        (Option.map server_of svid, files')

    unfoldable pub get_client_credentials :
        F
        → Bytes × Bytes
        → Bytes
        → String
        → SecretFiles
        → Option (ChannelCredentials F) × SecretFiles
    get_client_credentials now generated private_key spiffe_id files =
        let (svid, files') = minted now generated private_key spiffe_id files in
        (Option.map client_of svid, files')

    -- A certificate verifies against a root at a time: the root's subject is its issuer, the root's key
    -- the one that signed it, and the time is within its validity.
    abbrev pub Trusts : Bytes → F → Certificate F → Type 0
    Trusts root t c =
        (lib.subject_of root ≡ some c.issuer)
        × (lib.matches c.signed_with root ≡ true)
        × (c.not_valid_before ≤ᶠ t ≡ true)
        × (t ≤ᶠ c.not_valid_after ≡ true)

  -- Credentials that are made demand a client's certificate, carry the identity that was asked for, and
  -- are issued by their own root.
  pub get_server_credentials-identity :
      (lib : CaLibraries) (now : F) (generated : Bytes × Bytes) (private_key : Bytes) (id : String)
      (files : SecretFiles) (c : ServerCredentials F)
      → (get_server_credentials lib now generated private_key id files).0 ≡ some c
      → (c.require_client_auth ≡ true)
        × (c.svid.certificate.uris ≡ id ∷ [])
        × (lib.subject_of c.root_certificates ≡ some c.svid.certificate.issuer)
  unfolding get_server_credentials get_svid certify
  get_server_credentials-identity lib now generated private_key id files c e =
      let ca = (get_or_create_shared_ca generated files).0 in
      elim (Option-cases (lib.subject_of ca.1)) [
        | inl none_loads ↦ ground (arith, e, none_loads)
        | inr (subject, loads) ↦
            let same : server_of lib (certify now ca private_key id subject) ≡ c =
              ground (arith, e, loads) in
            subst
              (λ x.
                (x.require_client_auth ≡ true)
                × (x.svid.certificate.uris ≡ id ∷ [])
                × (lib.subject_of x.root_certificates ≡ some x.svid.certificate.issuer))
              same (refl, refl, loads)
      ]

  -- Of an authority that is usable, a server gets credentials for every name that is accepted.
  pub get_server_credentials-IsUsable :
      (lib : CaLibraries) (now : F) (generated : Bytes × Bytes) (private_key : Bytes) (id : String)
      (files : SecretFiles)
      → IsUsable lib (get_or_create_shared_ca generated files).0
      → lib.accepts_name id ≡ true
      → (c : ServerCredentials F) × (get_server_credentials lib now generated private_key id files
          ≡ (some c, (get_or_create_shared_ca generated files).1))
  unfolding get_server_credentials get_svid
  get_server_credentials-IsUsable lib now generated private_key id files usable named = (
    server_of lib
        (certify now (get_or_create_shared_ca generated files).0 private_key id usable.subject),
    rw usable.key_loads (rw named (rw usable.cert_loads refl)),
  )

  -- what a server reads of the certificate of its peer
  abbrev pub peer_identity : ChannelCredentials F → Option String
  peer_identity c = extract_spiffe_id c.svid.certificate.uris (c.svid.certificate.common_name ∷ [])

  -- The validity of a certificate that is minted at `now` covers a time.
  abbrev pub Covers : F → F → Type 0
  Covers now t =
      (fl.sub now (literal 300 0) ≤ᶠ t ≡ true) × (t ≤ᶠ fl.add now (literal 3600 0) ≡ true)
