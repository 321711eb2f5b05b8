-- ===== src/App/Credentials.antt =====
-- The credentials of the gRPC server (internal/app/app.go): `getTlsConfig`, `getMtlsCofig` and
-- `getGrpcCrednetials`. `log.Fatal` ends the program: the result is `none` there.
use goipay.Base.{
  String, Bool, true, false, Option, none, some, List, [], ◌∷◌, str_eq, if◌then◌else◌,
}
use goipay.Error.{Result, ok, err}
use goipay.App.Config.{AppConfig, CliOpts}

-- `tls.Config`, as far as it is set: the server's certificate, its roots, and the roots of clients,
-- where a client must have a certificate that is verified.
pub record TlsConfig : Type 0 where
  pub certificate : String
  pub root_cas : String
  pub client_cas : List String
  pub require_and_verify_client_cert : Bool

-- `tls.LoadX509KeyPair`, `os.ReadFile`, whether `AppendCertsFromPEM` finds a certificate, and Go's
-- `strings.TrimSpace` and `strings.Split` at commas.
pub record CertLib : Type 0 where
  pub load_x509_key_pair : String → String → Result String
  pub read_file : String → Result String
  pub append_certs_from_pem : String → Bool
  pub trim_space : String → String
  pub split_commas : String → List String

module _ (lib : CertLib) where
  -- A file of certificates, or the end of the program.
  abbrev pub trusted : Result String → Option String
  trusted (err _) = none
  trusted (ok text) = if lib.append_certs_from_pem text then some text else none

  abbrev pub tls_of : Result String → Option String → Option TlsConfig
  tls_of (err _) ca = none
  tls_of (ok cert) none = none
  tls_of (ok cert) (some ca) = some (record {
    certificate = cert;
    root_cas = ca;
    client_cas = [];
    require_and_verify_client_cert = false;
  })

  -- `getTlsConfig`
  unfoldable pub get_tls_config : AppConfig → Option TlsConfig
  get_tls_config c =
      tls_of (lib.load_x509_key_pair c.server.tls.cert c.server.tls.key)
        (trusted (lib.read_file c.server.tls.ca))

  abbrev pub add_ca : Option String → Option (List String) → Option (List String)
  add_ca none cas = none
  add_ca (some text) none = none
  add_ca (some text) (some cas) = some (text ∷ cas)

  -- The loop over the paths.
  unfoldable pub client_cas_of : List String → Option (List String)
  client_cas_of [] = some []
  client_cas_of (path ∷ paths) = add_ca (trusted (lib.read_file path)) (client_cas_of paths)

  abbrev pub with_clients : Option TlsConfig → Option (List String) → Option TlsConfig
  with_clients none cas = none
  with_clients (some t) none = none
  with_clients (some t) (some cas) =
      some (record t { client_cas = cas; require_and_verify_client_cert = true })

  abbrev pub at_least_one : List String → Option (List String)
  at_least_one [] = none
  at_least_one (path ∷ paths) = client_cas_of (path ∷ paths)

  -- `getMtlsCofig`
  unfoldable pub get_mtls_config : AppConfig → CliOpts → Option TlsConfig
  unfolding get_tls_config client_cas_of
  get_mtls_config c opts = with_clients (get_tls_config c) (
      if str_eq (lib.trim_space opts.client_ca_paths) ""
      then none
      else at_least_one (lib.split_commas (lib.trim_space opts.client_ca_paths)))

  abbrev pub creds : Option TlsConfig → Option (Option TlsConfig)
  creds none = none
  creds (some t) = some (some t)

  -- `getGrpcCrednetials`: no credentials, those of the mode, or the end of the program.
  unfoldable pub get_grpc_credentials : AppConfig → CliOpts → Option (Option TlsConfig)
  unfolding get_tls_config get_mtls_config
  get_grpc_credentials c opts =
      if str_eq c.server.tls.mode "none"
      then some none
      else if str_eq c.server.tls.mode "tls"
      then creds (get_tls_config c)
      else if str_eq c.server.tls.mode "mtls"
      then creds (get_mtls_config c opts)
      else none
