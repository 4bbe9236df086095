-- ===== src/Config/Certificates.antt =====
-- config.go, server.go and sni_tester.go: the certificates that a server starts with.
use mongonet.Base.{◌≡◌, ◌⊎◌, ap, List, ◌++◌, Option}
use mongonet.Server.Tls.{SslPair, Loads, Refuses, kept, exchanged, set_tls_config-IsExchanged}
use mongonet.Config.{ServerConfig, on_ssl_config}

-- What `OnSSLConfig` leaves: the configuration as it was, where a pair cannot be loaded, or one with all
-- certificates and the configured limits.
pub data IsConfigured {C : Type 0} (load_file load_text : SslPair → Option C) (pairs : List SslPair)
    (before after : ServerConfig C) : Type 0 where
  as_before :
      Refuses load_file before.ssl_keys ⊎ Refuses load_text pairs
      → after ≡ before
      → IsConfigured load_file load_text pairs before after
  with_all :
      (files texts : List C)
      → Loads load_file before.ssl_keys files
      → Loads load_text pairs texts
      → after ≡ record before {
        sync_tls_config = record {
          certificates = files ++ texts;
          min_version = before.min_tls_version;
          cipher_suites = before.cipher_suites;
        };
      }
      → IsConfigured load_file load_text pairs before after

-- `OnSSLConfig` exchanges the certificates of a server as a whole, and nothing else of its configuration: for
-- the certificates of all the configured files and then of all the given pairs, in order, with the configured
-- version and cipher suites. Where a file or a pair has no certificate it changes nothing, and does not say so.
pub on_ssl_config-IsConfigured :
    {C : Type 0} (load_file load_text : SslPair → Option C) (pairs : List SslPair)
    (before : ServerConfig C)
    → IsConfigured load_file load_text pairs before (on_ssl_config load_file load_text pairs before)
unfolding on_ssl_config
on_ssl_config-IsConfigured load_file load_text pairs before =
    elim (set_tls_config-IsExchanged load_file load_text pairs before.ssl_keys
      before.min_tls_version before.cipher_suites before.sync_tls_config) [
        | kept e h q ↦ as_before h (ap (λ r. record before { sync_tls_config = r.1 }) q)
        | exchanged files texts hf ht q ↦
            with_all files texts hf ht (ap (λ r. record before { sync_tls_config = r.1 }) q)
      ]
