-- ===== src/App/Served.antt =====
-- When the gRPC server starts, and with which credentials (internal/app/app.go).
use goipay.Base.{◌≡◌, ◌≢◌, ◌⊎◌, String, true, false, Option, none, some, List, [], ◌∷◌}
use goipay.Error.{Error, ok, err}
use goipay.App.Config.{AppConfig, CliOpts}
use goipay.App.Credentials.{TlsConfig, CertLib, trusted}

module _ (lib : CertLib) where
  -- The file can be read and holds certificates, its text.
  abbrev pub Holds : String → String → Type 0
  Holds path text = (lib.read_file path ≡ ok text) × (lib.append_certs_from_pem text ≡ true)

  -- Each file holds certificates, these texts.
  pub data HoldAll : List String → List String → Type 0 where
    nil : HoldAll [] []
    cons :
        (path text : String) (paths texts : List String)
        → Holds path text
        → HoldAll paths texts
        → HoldAll (path ∷ paths) (text ∷ texts)

  -- Some file in the list cannot be read or holds no certificate.
  pub data SomeBad : List String → Type 0 where
    bad :
        (path : String) (paths : List String)
        → trusted lib (lib.read_file path) ≡ none
        → SomeBad (path ∷ paths)
    later : (path : String) (paths : List String) → SomeBad paths → SomeBad (path ∷ paths)

  abbrev CasOf : List String → Option (List String) → Type 0
  CasOf paths none = SomeBad paths
  CasOf paths (some texts) = HoldAll paths texts

  abbrev AnyOf : List String → Option (List String) → Type 0
  AnyOf paths none = (paths ≡ []) ⊎ SomeBad paths
  AnyOf paths (some texts) = HoldAll paths texts

  module _ (c : AppConfig) (opts : CliOpts) where
    -- The server's certificate and key load, and its roots hold certificates.
    abbrev pub IsLoaded : TlsConfig → Type 0
    IsLoaded t =
        (lib.load_x509_key_pair c.server.tls.cert c.server.tls.key ≡ ok t.certificate)
        × Holds c.server.tls.ca t.root_cas

    -- Why they do not.
    abbrev pub NotLoaded : Type 0
    NotLoaded =
        ((e : Error) × (lib.load_x509_key_pair c.server.tls.cert c.server.tls.key ≡ err e))
        ⊎ (trusted lib (lib.read_file c.server.tls.ca) ≡ none)

    -- The files with the clients' roots.
    abbrev pub paths : List String
    paths = lib.split_commas (lib.trim_space opts.client_ca_paths)

    -- Why they are not there.
    abbrev pub NoClients : Type 0
    NoClients = (lib.trim_space opts.client_ca_paths ≡ "") ⊎ (paths ≡ []) ⊎ SomeBad paths

    abbrev TlsOf : Option TlsConfig → Type 0
    TlsOf none = NotLoaded
    TlsOf (some t) = IsLoaded t × (t.require_and_verify_client_cert ≡ false)

    abbrev ClientsOf : Option (List String) → Type 0
    ClientsOf none = NoClients
    ClientsOf (some cas) = HoldAll paths cas

    abbrev MtlsOf : Option TlsConfig → Type 0
    MtlsOf none = NotLoaded ⊎ NoClients
    MtlsOf (some t) =
        IsLoaded t × (t.require_and_verify_client_cert ≡ true) × HoldAll paths t.client_cas

    -- What the server starts with, or why it does not start.
    abbrev pub IsServed : Option (Option TlsConfig) → Type 0
    IsServed (some none) = c.server.tls.mode ≡ "none"
    IsServed (some (some t)) =
        IsLoaded t
        × (((c.server.tls.mode ≡ "tls") × (t.require_and_verify_client_cert ≡ false))
            ⊎ ((c.server.tls.mode ≡ "mtls")
                × (t.require_and_verify_client_cert ≡ true)
                × HoldAll paths t.client_cas))
    IsServed none =
        ((c.server.tls.mode ≢ "none") × (c.server.tls.mode ≢ "tls") × (c.server.tls.mode ≢ "mtls"))
        ⊎ NotLoaded
        ⊎ ((c.server.tls.mode ≡ "mtls") × NoClients)
