-- ===== src/Config.antt =====
-- config.go, the configuration in server.go, and how the programs under cmd/ fill it in. The flags of a
-- program are arguments; the log level and the appenders are left out.
pub mod Certificates
use mongonet.Base.{ℕ, List, [], ◌∷◌, ◌++◌, Bool, true, false, Option, none, some}
use mongonet.Server.Tls.{SslPair, TlsConfig, set_tls_config}

-- `ServerConfig`, with the configuration that its SyncTlsConfig points to. `C` is tls.Certificate.
pub record ServerConfig (C : Type 0) : Type 0 where
  pub bind_host : List ℕ
  pub bind_port : ℕ
  pub use_ssl : Bool
  pub ssl_keys : List SslPair
  pub sync_tls_config : TlsConfig C
  pub min_tls_version : ℕ
  pub tcp_keep_alive_period : ℕ
  pub cipher_suites : Option (List ℕ)

-- `ProxyConfig`. `R` is x509.CertPool, `F` a factory of interceptors, `H` a connection hook.
pub record ProxyConfig (C R F H : Type 0) : Type 0 where
  pub server : ServerConfig C
  pub mongo_host : List ℕ
  pub mongo_port : ℕ
  pub mongo_ssl : Bool
  pub mongo_root_cas : Option R
  pub mongo_ssl_skip_verify : Bool
  pub interceptor_factory : Option F
  pub connection_pool_hook : Option H

-- `NewSyncTlsConfig`: `&tls.Config{}`
abbrev pub new_sync_tls_config : {C : Type 0} → TlsConfig C
new_sync_tls_config = record { certificates = []; min_version = 0; cipher_suites = none }

-- `NewProxyConfig`
abbrev pub new_proxy_config : {C R F H : Type 0} → List ℕ → ℕ → List ℕ → ℕ → ProxyConfig C R F H
new_proxy_config bind_host bind_port mongo_host mongo_port = record {
  server = record {
    bind_host = bind_host;
    bind_port = bind_port;
    use_ssl = false;
    ssl_keys = [];
    sync_tls_config = new_sync_tls_config;
    min_tls_version = 0;
    tcp_keep_alive_period = 0;
    cipher_suites = none;
  };
  mongo_host = mongo_host;
  mongo_port = mongo_port;
  mongo_ssl = false;
  mongo_root_cas = none;
  mongo_ssl_skip_verify = false;
  interceptor_factory = none;
  connection_pool_hook = none;
}

-- `MongoAddress`, where `decimal` prints a number
abbrev pub mongo_address : {C R F H : Type 0} → (ℕ → List ℕ) → ProxyConfig C R F H → List ℕ
mongo_address decimal pc = pc.mongo_host ++ (58 ∷ decimal pc.mongo_port)

-- The address that `Run` listens on
abbrev pub bind_to : {C : Type 0} → (ℕ → List ℕ) → ServerConfig C → List ℕ
bind_to decimal sc = sc.bind_host ++ (58 ∷ decimal sc.bind_port)

-- `OnSSLConfig`, which drops the error of `setTlsConfig`.
unfoldable pub on_ssl_config :
    {C : Type 0}
    → (SslPair → Option C)
    → (SslPair → Option C)
    → List SslPair
    → ServerConfig C
    → ServerConfig C
on_ssl_config load_file load_text pairs sc =
    let r =
      set_tls_config load_file load_text pairs sc.cipher_suites sc.min_tls_version sc.ssl_keys
        sc.sync_tls_config in
    record sc { sync_tls_config = r.1 }

-- The configuration of straight_proxy
abbrev pub straight_config : {C R F H : Type 0} → List ℕ → ℕ → List ℕ → ℕ → ProxyConfig C R F H
straight_config bind_host bind_port mongo_host mongo_port =
    record (new_proxy_config bind_host bind_port mongo_host mongo_port) {
      mongo_ssl_skip_verify = true;
    }

-- The configuration of sni_tester, with the two arguments behind its flags
abbrev pub sni_config :
    {C R F H : Type 0} → F → List ℕ → List ℕ → List ℕ → ℕ → List ℕ → ℕ → ProxyConfig C R F H
sni_config factory cert key bind_host bind_port mongo_host mongo_port =
    let pc = new_proxy_config bind_host bind_port mongo_host mongo_port in
    record pc {
      server = record pc.server {
        use_ssl = true;
        ssl_keys = record { cert = cert; key = key } ∷ [];
      };
      interceptor_factory = some factory;
      mongo_ssl_skip_verify = true;
    }
