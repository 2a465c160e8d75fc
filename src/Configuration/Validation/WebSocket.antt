-- ===== src/Configuration/Validation/WebSocket.antt =====
-- What validateAndNormalizeWebsocketSettings ensures.
use text.Mathlib.Text.{starts_with}
use pxp_agent.Base.{
  String, Bool, true, false, some, ◌≡◌, refl, ◌∙◌, is_blank, lookup, Bool-cases, inl, inr,
}
use pxp_agent.Exception.{Result, ok, err, aborted, connection_config_error}
use pxp_agent.Exception.Stateful.{Post, ◌>>◌}
use pxp_agent.Libraries.{Libraries}
use pxp_agent.Configuration.{string_value, Configuration, HorseWhisperer, set_flag}
use pxp_agent.Configuration.Validation.{
  PcpClient, check_certificate, catch_config_error, after_name, check_file, check_uri,
  validate_web_socket_settings,
}
use pxp_agent.Configuration.Validation.Frame.{
  Checks, guarded-Checks, Before, Failed, check-Post, string-Post, set_flag-Post, set_flag-Last,
}

-- The functions of cpp-pcp-client throw connection_config_error and nothing else.
abbrev pub ConfigChecked : {A : Type 0} → Result A → Type 0
ConfigChecked (ok a) = Unit {0}
ConfigChecked (err (connection_config_error w)) = Unit {0}
ConfigChecked _ = ⊥

abbrev pub PcpThrows : PcpClient → Type 0
PcpThrows p =
    ((cert : String) → ConfigChecked (p.common_name cert))
    × ((key cert : String) → ConfigChecked (p.key_cert_pair key cert))

catch-Checks :
    (r : Result String) (s : Result (Unit {0}))
    → ConfigChecked r
    → ConfigChecked s
    → Checks
        (λ u. catch_config_error (after_name r s) ≡ ok tt)
        (catch_config_error (after_name r s))
unfolding catch_config_error after_name
catch-Checks (ok a) (ok u) h k = refl
catch-Checks (ok a) (err (connection_config_error w)) h k = tt
catch-Checks (ok a) (err _) h k = absurd k
catch-Checks (ok a) aborted h k = absurd k
catch-Checks (err (connection_config_error w)) s h k = tt
catch-Checks (err _) s h k = absurd h
catch-Checks aborted s h k = absurd h

check_certificate-Checks :
    (p : PcpClient) (key cert : String)
    → PcpThrows p
    → Checks (λ u. check_certificate p key cert ≡ ok tt) (check_certificate p key cert)
unfolding check_certificate
check_certificate-Checks p key cert h =
    catch-Checks (p.common_name cert) (p.key_cert_pair key cert) (h.0 cert) (h.1 key cert)

module _ ⦃L : Libraries⦄ ⦃H : HorseWhisperer⦄ where
  open L use {Disk, status, status-FileChecked, exists, file_readable, tilde_expand}
  open H use {get}

  abbrev pub UriOk : String → Type 0
  UriOk uri = (is_blank uri ≡ false) × (starts_with uri "wss://" ≡ true)

  check_uri-Checks : (uri : String) → Checks (λ u. UriOk uri) (check_uri uri)
  unfolding check_uri
  check_uri-Checks uri = elim (Bool-cases (is_blank uri)) [
    | inl b ↦ rw b tt
    | inr b ↦ elim (Bool-cases (starts_with uri "wss://")) [
      | inl w ↦ rw (b, w) (refl, refl)
      | inr w ↦ rw (b, w) tt
    ]
  ]

  abbrev pub FileOk : Disk → String → Type 0
  FileOk d path = (exists d path ≡ true) × (file_readable d path ≡ true)

  check_file-Checks : (d : Disk) (option val : String) → Checks (FileOk d) (check_file d option val)
  unfolding check_file
  check_file-Checks d option val = elim (Bool-cases (is_blank val)) [
    | inl b ↦ rw b tt
    | inr b ↦ rw b (
        guarded-Checks (FileOk d) (status d (tilde_expand val)) _
          (status-FileChecked d (tilde_expand val))
          (elim (Bool-cases (exists d (tilde_expand val))) [
            | inr x ↦ rw x tt
            | inl x ↦ elim (Bool-cases (file_readable d (tilde_expand val))) [
              | inl r ↦ rw (x, r) (x, r)
              | inr r ↦ rw (x, r) tt
            ]
          ]))
  ]

  -- The broker's URI, the three files, and the certificate with its key have passed the checks.
  abbrev pub WebSocketValid : PcpClient → Disk → Configuration → Type 0
  WebSocketValid p d c =
      (uri ca cert key : String) × (get c.flags "broker-ws-uri" ≡ some (string_value uri))
      × UriOk uri
      × (get c.flags "ssl-ca-cert" ≡ some (string_value ca))
      × FileOk d ca
      × (get c.flags "ssl-cert" ≡ some (string_value cert))
      × FileOk d cert
      × (get c.flags "ssl-key" ≡ some (string_value key))
      × FileOk d key
      × (check_certificate p key cert ≡ ok tt)

  abbrev pub WebSocketChecked : Bool → PcpClient → Disk → Unit {0} → Configuration → Type 0
  WebSocketChecked v p d u c = Before v c × WebSocketValid p d c

  -- The three SetFlag calls at the end.
  normalized-Post :
      (v : Bool) (p : PcpClient) (d : Disk) (c : Configuration) (uri ca cert key : String)
      → Before v c
      → get c.flags "broker-ws-uri" ≡ some (string_value uri)
      → UriOk uri
      → FileOk d ca
      → FileOk d cert
      → FileOk d key
      → check_certificate p key cert ≡ ok tt
      → Post (WebSocketChecked v p d) (Failed v) (
          (set_flag "ssl-ca-cert" (string_value ca)
              >> (set_flag "ssl-cert" (string_value cert) >> set_flag "ssl-key" (string_value key)))
            c)
  unfolding lookup
  normalized-Post v p d c uri ca cert key b u uok aok cok kok pair =
      set_flag-Post (WebSocketChecked v p d) v "ssl-ca-cert" ca c _ refl b (λ c1 b1 g1 o1.
        set_flag-Post (WebSocketChecked v p d) v "ssl-cert" cert c1 _ refl b1 (λ c2 b2 g2 o2.
          set_flag-Last (WebSocketChecked v p d) v "ssl-key" key c2 refl b2 (λ c3 b3 g3 o3. (
            b3,
            (
              uri,
              ca,
              cert,
              key,
              o3 "broker-ws-uri" refl refl
                  ∙ o2 "broker-ws-uri" refl refl
                  ∙ o1 "broker-ws-uri" refl refl
                  ∙ u,
              uok,
              o3 "ssl-ca-cert" refl refl ∙ o2 "ssl-ca-cert" refl refl ∙ g1,
              aok,
              o3 "ssl-cert" refl refl ∙ g2,
              cok,
              g3,
              kok,
              pair,
            ),
          ))))

  pub validate_web_socket_settings-Post :
      (v : Bool) (p : PcpClient) (d : Disk) (c : Configuration)
      → PcpThrows p
      → Before v c
      → Post (WebSocketChecked v p d) (Failed v) (validate_web_socket_settings p d c)
  unfolding validate_web_socket_settings lookup
  validate_web_socket_settings-Post v p d c h b =
      let Q = WebSocketChecked v p d in
      string-Post Q v "broker-ws-uri" _ c refl b (λ uri u.
        check-Post (λ w. UriOk uri) Q v (check_uri uri) _ c b (check_uri-Checks uri)
          (λ w uok. string-Post Q v "ssl-ca-cert" _ c refl b (λ ca x.
            string-Post Q v "ssl-cert" _ c refl b (λ cert y.
              string-Post Q v "ssl-key" _ c refl b (λ key z.
                check-Post (FileOk d) Q v (check_file d "ssl-ca-cert" ca) _ c b
                  (check_file-Checks d "ssl-ca-cert" ca)
                  (λ ca' aok.
                    check-Post (FileOk d) Q v (check_file d "ssl-cert" cert) _ c b
                      (check_file-Checks d "ssl-cert" cert)
                      (λ cert' cok.
                        check-Post (FileOk d) Q v (check_file d "ssl-key" key) _ c b
                          (check_file-Checks d "ssl-key" key)
                          (λ key' kok.
                            check-Post (λ e. check_certificate p key' cert' ≡ ok tt) Q v
                              (check_certificate p key' cert') _ c b
                              (check_certificate-Checks p key' cert' h)
                              (λ e pair.
                                normalized-Post v p d c uri ca' cert' key' b u uok aok cok kok
                                  pair)))))))))
