-- ===== src/Configuration/Settings/Timeout.antt =====
-- The timeout of the agent's connection, in milliseconds, and the other settings of the agent.
use pxp_agent.Base.{
  ◌≤◌, ◌<◌, String, true, some, ◌≡◌, ◌⊎◌, refl, ap, ◌∙◌, lookup, ℤ, pos, negsuc, arith, inl, inr,
  if◌then◌else◌,
}
use pxp_agent.Exception.{Result, ok, aborted}
use pxp_agent.Exception.Stateful.{after}
use pxp_agent.Libraries.{Libraries}
use pxp_agent.Configuration.{
  AgentConfiguration, Configuration, HorseWhisperer, string_value, integer_value,
}
use pxp_agent.Configuration.Ready.{Ready, get_string-Ready}
use pxp_agent.Configuration.Settings.{
  milliseconds, times_thousand, get_agent_configuration, read_agent_configuration, cache,
  agent_client_type,
}

-- The timeouts, in seconds, whose milliseconds an int holds.
abbrev pub InRange : ℤ → Type 0
InRange (pos n) = n ≤ 2147483
InRange (negsuc n) = n < 2147483

-- The product is exact, or an overflow.
abbrev Product : ℤ → Result ℤ → Type 0
Product z r = (InRange z × (r ≡ ok (times_thousand z))) ⊎ ((¬ InRange z) × (r ≡ aborted))

milliseconds-Product : (z : ℤ) → Product z (milliseconds z)
unfolding milliseconds
milliseconds-Product (pos n) = ground arith
milliseconds-Product (negsuc n) = ground arith

module _ ⦃L : Libraries⦄ ⦃H : HorseWhisperer⦄ where
  open H use {get}

  -- The fields are the values of the flags.
  abbrev pub AgentOf : Configuration → AgentConfiguration → Type 0
  AgentOf c a =
      (get c.flags "modules-dir" ≡ some (string_value a.modules_dir))
      × (get c.flags "broker-ws-uri" ≡ some (string_value a.broker_ws_uri))
      × (get c.flags "ssl-ca-cert" ≡ some (string_value a.ca))
      × (get c.flags "ssl-cert" ≡ some (string_value a.crt))
      × (get c.flags "ssl-key" ≡ some (string_value a.key))
      × (get c.flags "spool-dir" ≡ some (string_value a.spool_dir))
      × (get c.flags "modules-config-dir" ≡ some (string_value a.modules_config_dir))
      × (a.client_type ≡ agent_client_type)

  -- The settings are given and cached, or the timeout overflows.
  abbrev pub Given : ℤ → Configuration → Result AgentConfiguration × Configuration → Type 0
  Given z c r =
      (InRange z
        × ((a : AgentConfiguration) × (r ≡ (ok a, record c { agent_configuration = a }))
            × AgentOf c a
            × (a.connection_timeout ≡ times_thousand z)))
      ⊎ ((¬ InRange z) × (r ≡ (aborted, c)))

  abbrev agent :
      String → String → String → String → String → String → String → ℤ → AgentConfiguration
  agent m u a p k s n ms = record {
    modules_dir = m;
    broker_ws_uri = u;
    ca = a;
    crt = p;
    key = k;
    spool_dir = s;
    modules_config_dir = n;
    client_type = agent_client_type;
    connection_timeout = ms;
  }

  read_agent_configuration-cache :
      (c : Configuration) (m u a p k s n : String) (z : ℤ)
      → get c.flags "modules-dir" ≡ some (string_value m)
      → get c.flags "broker-ws-uri" ≡ some (string_value u)
      → get c.flags "ssl-ca-cert" ≡ some (string_value a)
      → get c.flags "ssl-cert" ≡ some (string_value p)
      → get c.flags "ssl-key" ≡ some (string_value k)
      → get c.flags "spool-dir" ≡ some (string_value s)
      → get c.flags "modules-config-dir" ≡ some (string_value n)
      → get c.flags "connection-timeout" ≡ some (integer_value z)
      → read_agent_configuration c
        ≡ after (milliseconds z, c) (λ ms. cache (agent m u a p k s n ms))
  unfolding read_agent_configuration
  read_agent_configuration-cache c m u a p k s n z hm hu ha hp hk hs hn t =
      rw (hm, hu, ha, hp, hk, hs, hn, t) refl

  -- The multiplication, and the cache.
  cached-Given :
      (c : Configuration) (f : ℤ → AgentConfiguration) (z : ℤ) (r : Result ℤ)
      (x : Result AgentConfiguration × Configuration)
      → x ≡ after (r, c) (λ ms. cache (f ms))
      → AgentOf c (f (times_thousand z))
      → (f (times_thousand z)).connection_timeout ≡ times_thousand z
      → Product z r
      → Given z c x
  unfolding cache
  cached-Given c f z r x h a q (inl (i, e)) =
      inl (i, (f (times_thousand z), h ∙ ap (λ y. after (y, c) (λ ms. cache (f ms))) e, a, q))
  cached-Given c f z r x h a q (inr (i, e)) =
      inr (i, h ∙ ap (λ y. after (y, c) (λ ms. cache (f ms))) e)

  -- On a validated configuration getAgentConfiguration gives the values of the flags, with the
  -- connection timeout in milliseconds, exactly if the timeout is from -2147483 to 2147483 seconds;
  -- any other timeout overflows int, since no check of the option bounds it.
  pub get_agent_configuration-Given :
      (c : Configuration) (z : ℤ)
      → Ready c
      → c.valid ≡ true
      → get c.flags "connection-timeout" ≡ some (integer_value z)
      → Given z c (get_agent_configuration c)
  unfolding get_agent_configuration read_agent_configuration cache lookup
  get_agent_configuration-Given c z r v t =
      let (m, hm) = get_string-Ready "modules-dir" c refl r in
      let (u, hu) = get_string-Ready "broker-ws-uri" c refl r in
      let (a, ha) = get_string-Ready "ssl-ca-cert" c refl r in
      let (p, hp) = get_string-Ready "ssl-cert" c refl r in
      let (k, hk) = get_string-Ready "ssl-key" c refl r in
      let (s, hs) = get_string-Ready "spool-dir" c refl r in
      let (n, hn) = get_string-Ready "modules-config-dir" c refl r in
      let e =
        ap (λ b. if b then read_agent_configuration c else (aborted, c)) v
        ∙ read_agent_configuration-cache c m u a p k s n z hm hu ha hp hk hs hn t in
      cached-Given c (agent m u a p k s n) z _ _ e (hm, hu, ha, hp, hk, hs, hn, refl) refl
        (milliseconds-Product z)
