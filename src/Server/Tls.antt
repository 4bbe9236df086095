-- ===== src/Server/Tls.antt =====
-- server.go: the TLS configuration, which `OnSSLConfig` exchanges while the server runs. The loaders of
-- crypto/tls are parameters: for a pair of file names, and for a pair of texts.
use mongonet.Base.{
  ℕ, ◌≡◌, ◌⊎◌, inl, inr, refl, sym, List, [], ◌∷◌, ◌++◌, append-nil, append_assoc, ◌∙◌, ap, Option,
  none, some,
}

-- SSLPair
pub record SslPair : Type 0 where
  pub cert : List ℕ
  pub key : List ℕ

-- The fields of tls.Config that are set. The zero values are 0 and none.
pub record TlsConfig (C : Type 0) : Type 0 where
  pub certificates : List C
  pub min_version : ℕ
  pub cipher_suites : Option (List ℕ)

-- The errors of `setTlsConfig`, with the pair.
pub data TlsError : Type 0 where
  cannot_load cannot_construct : SslPair → TlsError

-- `if err != nil { return }`
abbrev pub if_loaded : {C A : Type 0} → Option C → A → (C → A) → A
if_loaded none stop next = stop
if_loaded (some cer) stop next = next cer

-- A loop over pairs: the certificates with those that were there, or the error of the first pair that has none.
abbrev pub load_all :
    {C : Type 0}
    → (SslPair → Option C)
    → (SslPair → TlsError)
    → List SslPair
    → List C
    → TlsError ⊎ List C
load_all load error [] certs = inr certs
load_all load error (pair ∷ pairs) certs =
    if_loaded (load pair) (inl (error pair))
      (λ cer. load_all load error pairs (certs ++ (cer ∷ [])))

abbrev pub either : {A B C : Type 0} → A ⊎ B → (A → C) → (B → C) → C
either (inl a) f g = f a
either (inr b) f g = g b

module _ {C : Type 0} (load_file : SslPair → Option C) (load_text : SslPair → Option C) where
  -- The configuration behind the two loops
  abbrev pub with_certificates : List C → ℕ → Option (List ℕ) → TlsConfig C
  with_certificates certs min_version suites = record {
    certificates = certs;
    min_version = min_version;
    cipher_suites = suites;
  }

  -- `setTlsConfig`: an error, or none, and the configuration of the server then.
  unfoldable pub set_tls_config :
      List SslPair
      → Option (List ℕ)
      → ℕ
      → List SslPair
      → TlsConfig C
      → Option TlsError × TlsConfig C
  set_tls_config ssl_keys suites min_version fallback_keys current =
      either (load_all load_file cannot_load fallback_keys []) (λ e. (some e, current))
        (λ certs.
          either (load_all load_text cannot_construct ssl_keys certs) (λ e. (some e, current))
            (λ certs'. (none, with_certificates certs' min_version suites)))

-- The certificates of the pairs, in order.
abbrev pub Loads : {C : Type 0} → (SslPair → Option C) → List SslPair → List C → Type 0
Loads load [] [] = Unit {0}
Loads load (pair ∷ pairs) (cer ∷ certs) = (load pair ≡ some cer) × Loads load pairs certs
Loads load _ _ = ⊥

-- One of the pairs has no certificate.
abbrev pub Refuses : {C : Type 0} → (SslPair → Option C) → List SslPair → Type 0
Refuses load [] = ⊥
Refuses load (pair ∷ pairs) = (load pair ≡ none) ⊎ Refuses load pairs

-- A loop that has failed, or has put all certificates behind those that were there.
data IsLoaded {C : Type 0} (load : SslPair → Option C) (pairs : List SslPair) (certs : List C)
    (r : TlsError ⊎ List C) : Type 0 where
  refused : (e : TlsError) → Refuses load pairs → r ≡ inl e → IsLoaded load pairs certs r
  loaded :
      (more : List C)
      → Loads load pairs more
      → r ≡ inr (certs ++ more)
      → IsLoaded load pairs certs r

load_all-IsLoaded :
    {C : Type 0} (load : SslPair → Option C) (error : SslPair → TlsError) (pairs : List SslPair)
    (certs : List C)
    → IsLoaded load pairs certs (load_all load error pairs certs)
load_all-IsLoaded load error [] certs = loaded [] tt (ap inr (sym (append-nil certs)))
load_all-IsLoaded {C} load error (pair ∷ pairs) certs =
    next (load pair) refl (λ cer. load_all-IsLoaded load error pairs (certs ++ (cer ∷ [])))
  where
    next :
        (o : Option C)
        → load pair ≡ o
        → ((cer : C)
            → IsLoaded load pairs
                (certs ++ (cer ∷ []))
                (load_all load error pairs (certs ++ (cer ∷ []))))
        → IsLoaded load (pair ∷ pairs) certs (
            if_loaded o (inl (error pair)) (λ cer. load_all load error pairs (certs ++ (cer ∷ []))))
    next none e rest = refused (error pair) (inl e) refl
    next (some cer) e rest = elim (rest cer) [
      | refused e' h q ↦ refused e' (inr h) q
      | loaded more h q ↦
          loaded (cer ∷ more) (e, h) (q ∙ ap inr (append_assoc certs (cer ∷ []) more))
    ]

-- The configuration is exchanged as a whole or not at all.
pub data IsExchanged {C : Type 0} (load_file load_text : SslPair → Option C)
    (ssl_keys fallback_keys : List SslPair) (min_version : ℕ) (suites : Option (List ℕ))
    (current : TlsConfig C) (r : Option TlsError × TlsConfig C) : Type 0 where
  kept :
      (e : TlsError)
      → Refuses load_file fallback_keys ⊎ Refuses load_text ssl_keys
      → r ≡ (some e, current)
      → IsExchanged load_file load_text ssl_keys fallback_keys min_version suites current r
  exchanged :
      (files texts : List C)
      → Loads load_file fallback_keys files
      → Loads load_text ssl_keys texts
      → r ≡ (
        none,
        record { certificates = files ++ texts; min_version = min_version; cipher_suites = suites },
      )
      → IsExchanged load_file load_text ssl_keys fallback_keys min_version suites current r

-- `setTlsConfig` gives an error and keeps the configuration, and a file or a pair has no certificate, or gives none and exchanges it for one with the
-- certificates of all files and then of all pairs, in order.
pub set_tls_config-IsExchanged :
    {C : Type 0} (load_file load_text : SslPair → Option C) (ssl_keys fallback_keys : List SslPair)
    (min_version : ℕ) (suites : Option (List ℕ)) (current : TlsConfig C)
    → IsExchanged load_file load_text ssl_keys fallback_keys min_version suites current
        (set_tls_config load_file load_text ssl_keys suites min_version fallback_keys current)
unfolding set_tls_config
set_tls_config-IsExchanged load_file load_text ssl_keys fallback_keys min_version suites current =
    elim (load_all-IsLoaded load_file cannot_load fallback_keys []) [
      | refused e h q ↦ kept e (inl h) (rw q refl)
      | loaded files h q ↦ elim (load_all-IsLoaded load_text cannot_construct ssl_keys files) [
        | refused e h' q' ↦ kept e (inr h') (rw (q, q') refl)
        | loaded texts h' q' ↦ exchanged files texts h h' (rw (q, q') refl)
      ]
    ]
