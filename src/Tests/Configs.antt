-- ===== src/Tests/Configs.antt =====
-- cmd/ and config.go: the programs' configurations.
use mongonet.Base.{ℕ, ◌≡◌, refl, [], ◌∷◌, Option, none, some}
use mongonet.Server.Tls.{SslPair, set_tls_config}
use mongonet.Config.{ProxyConfig, sni_config, on_ssl_config}
use mongonet.Config.Certificates.{IsConfigured, on_ssl_config-IsConfigured}
use mongonet.Tests.Data.{name}

-- sni_tester on port 9999, with the number 1 for its factory
abbrev sni_tester : ProxyConfig ℕ ℕ ℕ ℕ
sni_tester = sni_config 1 name name name 9999 name 27017

-- A file has the certificate 5, or there is none.
abbrev present : SslPair → Option ℕ
present _ = some 5

abbrev missing : SslPair → Option ℕ
missing _ = none

on_ssl_config-IsConfigured_example :
    IsConfigured present missing [] sni_tester.server
      (on_ssl_config present missing [] sni_tester.server)
on_ssl_config-IsConfigured_example = on_ssl_config-IsConfigured present missing [] sni_tester.server

one_certificate :
    (on_ssl_config present missing [] sni_tester.server).sync_tls_config.certificates ≡ 5 ∷ []
unfolding on_ssl_config set_tls_config
one_certificate = refl

-- A server for TLS that has no certificate starts all the same.
no_certificate :
    (on_ssl_config missing missing [] sni_tester.server).sync_tls_config.certificates ≡ []
unfolding on_ssl_config set_tls_config
no_certificate = refl
