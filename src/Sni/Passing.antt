-- ===== src/Sni/Passing.antt =====
-- sni_tester.go: a session whose client does not ask for "sni" is as one without the interceptor.
use mongonet.Base.{
  ℕ, zero, suc, ◌≡◌, refl, sym, ap, ◌∙◌, ◌≢◌, List, Bool, true, false, Bool-cases, inl, inr, not,
  ◌||◌, if◌then◌else◌, Option, none, some, Outcome, ok, err, panic, hang,
}
use mongonet.Document.{Document, same_key}
use mongonet.Wire.{Message}
use mongonet.Namespace.{namespace_is_command}
use mongonet.Namespace.Parts.{starts_with_dollar, namespace-parts}
use mongonet.Socket.{read_message}
use mongonet.Pool.{ConnectionPool}
use mongonet.Proxy.{
  client, Network, Response, release, exchange, send_request, forward, after_interception, do_loop,
  do_loop_temp, reader,
}
use mongonet.Sni.{
  sni, asks_for_sni, pass_on, intercept_query, intercept_command, intercept_client_to_mongo,
  my_interceptor,
}

-- A query on a command collection whose document starts with "sni", or a command of that name.
abbrev pub IsSni : (List ℕ → Option Document) → Message → Type 0
IsSni unmarshal (Message.query mm) =
    (namespace_is_command mm.namespace ≡ ok true) × (asks_for_sni (unmarshal mm.query.bson) ≡ true)
IsSni unmarshal (Message.command mm) = same_key mm.cmd_name sni ≡ true
IsSni unmarshal _ = ⊥

module _ (net : Network) (marshal : Document → Option (List ℕ))
    (unmarshal : List ℕ → Option Document) (text : mongonet.Base.Error → List ℕ)
    (server_name : List ℕ) where
  open net use {World}

  exchange-my_interceptor :
      (fuel id : ℕ) (exhaust : Bool) (responder : Option (Message → World → Response World))
      (p : ConnectionPool) (w : World)
      → exchange net marshal
          (some (my_interceptor net marshal unmarshal text server_name))
          fuel
          id
          exhaust
          responder
          p
          w
        ≡ exchange net marshal none fuel id exhaust responder p w
  unfolding exchange release
  exchange-my_interceptor zero id exhaust responder p w = refl
  exchange-my_interceptor (suc fuel) id exhaust responder p w = simp (exchange-my_interceptor fuel)

  send_request-my_interceptor :
      (fuel : ℕ) (m : Message) (responder : Option (Message → World → Response World))
      (expecting : Bool) (id : ℕ) (p : ConnectionPool) (w : World)
      → send_request net marshal
          (some (my_interceptor net marshal unmarshal text server_name))
          fuel
          m
          responder
          expecting
          id
          p
          w
        ≡ send_request net marshal none fuel m responder expecting id p w
  unfolding send_request
  send_request-my_interceptor fuel m responder expecting id p w =
      simp (exchange-my_interceptor fuel)

  forward-my_interceptor :
      (fuel : ℕ) (m : Message) (responder : Option (Message → World → Response World))
      (expecting : Bool) (held : Option ℕ) (p : ConnectionPool) (w : World)
      → forward net marshal
          (some (my_interceptor net marshal unmarshal text server_name))
          fuel
          m
          responder
          expecting
          held
          p
          w
        ≡ forward net marshal none fuel m responder expecting held p w
  unfolding forward
  forward-my_interceptor fuel m responder expecting (some id) p w =
      send_request-my_interceptor fuel m responder expecting id p w
  forward-my_interceptor fuel m responder expecting none p w =
      simp (send_request-my_interceptor fuel m responder expecting)

  not_a_query :
      (ns : List ℕ) → namespace_is_command ns ≢ ok true → namespace_is_command ns ≡ ok false
  not_a_query ns h = elim (namespace-parts ns) [
    | inl p ↦ p.3
    | inr p ↦ elim (Bool-cases (starts_with_dollar p.1)) [
      | inl e ↦ absurd (h (p.6 ∙ ap ok e))
      | inr e ↦ p.6 ∙ ap ok e
    ]
  ]

  intercept-pass_on :
      (m : Message) (w : World)
      → ¬ IsSni unmarshal m
      → intercept_client_to_mongo net marshal unmarshal text server_name m w
        ≡ pass_on net marshal unmarshal text server_name m w
  unfolding intercept_client_to_mongo intercept_query intercept_command
  intercept-pass_on (Message.query mm) w h =
      elim (Bool-cases (asks_for_sni (unmarshal mm.query.bson))) [
        | inl asks ↦ rw (not_a_query mm.namespace (λ e. h (e, asks))) refl
        | inr asks ↦ elim (namespace-parts mm.namespace) [
          | inl p ↦ rw p.3 refl
          | inr p ↦ elim (Bool-cases (starts_with_dollar p.1)) [
            | inl e ↦ rw (p.6, e, asks) refl
            | inr e ↦ rw (p.6, e) refl
          ]
        ]
      ]
  intercept-pass_on (Message.command mm) w h = elim (Bool-cases (same_key mm.cmd_name sni)) [
    | inl e ↦ absurd (h e)
    | inr e ↦ rw e refl
  ]
  intercept-pass_on (Message.reply mm) w h = refl
  intercept-pass_on _ w h = refl

  -- The client never asks for "sni".
  module _
      (ordinary : (w : World) (m : Message) (w' : World)
        → read_message (reader net marshal none client) w ≡ ok (m, w')
        → ¬ IsSni unmarshal m) where
    do_loop-my_interceptor :
        (fuel : ℕ) (held : Option ℕ) (p : ConnectionPool) (w : World)
        → do_loop net marshal
            (some (my_interceptor net marshal unmarshal text server_name))
            fuel
            held
            p
            w
          ≡ do_loop net marshal none fuel held p w
    unfolding do_loop after_interception
    do_loop-my_interceptor fuel held p w =
        got (read_message (reader net marshal none client) w) refl
      where
        got :
            (o : Outcome (Message × World))
            → read_message (reader net marshal none client) w ≡ o
            → do_loop net marshal
                (some (my_interceptor net marshal unmarshal text server_name))
                fuel
                held
                p
                w
              ≡ do_loop net marshal none fuel held p w
        got (ok (m, w')) e =
            rw (e, intercept-pass_on m w' (ordinary w m w' e))
              (forward-my_interceptor fuel m none true held p w')
        got (err x) e = rw e refl
        got panic e = rw e refl
        got hang e = rw e refl

    -- For a client that never sends a command "sni", neither by OP_COMMAND nor by OP_QUERY: a session with the
    -- interceptor of sni_tester does exactly what a session without an interceptor does, for any number of
    -- turns, from any pool and state of the network.
    pub do_loop_temp-my_interceptor :
        (turns fuel : ℕ) (held : Option ℕ) (p : ConnectionPool) (w : World)
        → do_loop_temp net marshal
            (some (my_interceptor net marshal unmarshal text server_name))
            turns
            fuel
            held
            p
            w
          ≡ do_loop_temp net marshal none turns fuel held p w
    unfolding do_loop_temp release
    do_loop_temp-my_interceptor zero fuel held p w = refl
    do_loop_temp-my_interceptor (suc turns) fuel held p w =
        simp (do_loop-my_interceptor fuel, do_loop_temp-my_interceptor turns fuel)
