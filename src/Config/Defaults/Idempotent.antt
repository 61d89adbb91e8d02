-- ===== src/Config/Defaults/Idempotent.antt =====
-- cmd/defaults.go: `applyDefaults`, applied twice.
use backhaul_plus.Prelude.{
  ◌≡◌, refl, ap, Bool, true, false, List, [], ◌∷◌, map, ℤ, pos, arith, leb_ℤ, ◌∙◌,
}
use backhaul_plus.Config.{Config, ServerConfig, SniGatewayConfig, HttpGatewayConfig, ClientConfig}
use backhaul_plus.Config.Defaults.{
  if_empty, if_blank, if_not_positive, if_below_one, mux_version_or_default, level_or_default,
  server_defaults, sni_gateway_defaults, http_gateway_defaults, client_defaults, apply_defaults,
  ltb_ℤ,
}
use backhaul_plus.Strings.{Bytes, codes, equal, trim_space}

if_empty_idem : (d v : Bytes) → equal d [] ≡ false → if_empty d (if_empty d v) ≡ if_empty d v
if_empty_idem d v h = ground arith

if_blank_idem :
    (d v : Bytes) → equal (trim_space d) [] ≡ false → if_blank d (if_blank d v) ≡ if_blank d v
if_blank_idem d v h = ground arith

if_not_positive_idem :
    (d v : ℤ)
    → leb_ℤ d (pos 0) ≡ false
    → if_not_positive d (if_not_positive d v) ≡ if_not_positive d v
if_not_positive_idem d v h = ground arith

if_below_one_idem :
    (d v : ℤ) → ltb_ℤ d (pos 1) ≡ false → if_below_one d (if_below_one d v) ≡ if_below_one d v
if_below_one_idem d v h = ground arith

mux_version_idem :
    (v : ℤ) → mux_version_or_default (mux_version_or_default v) ≡ mux_version_or_default v
mux_version_idem v = ground arith

map_idem {ℓ} :
    {A : Type ℓ} (f : A → A)
    → ((a : A) → f (f a) ≡ f a)
    → (xs : List A) → map f (map f xs) ≡ map f xs
map_idem f h [] = refl
map_idem f h (a ∷ xs) = ap (λ t. t ∷ map f (map f xs)) (h a) ∙ ap (λ t. f a ∷ t) (map_idem f h xs)

module _ (known_level : Bytes → Bool) where
  level_idem :
      known_level (codes "info") ≡ true
      → (v : Bytes)
      → level_or_default known_level (level_or_default known_level v)
        ≡ level_or_default known_level v
  level_idem info v = ground arith

  server_idem :
      known_level (codes "info") ≡ true
      → (s : ServerConfig)
      → server_defaults known_level (server_defaults known_level s) ≡ server_defaults known_level s
  unfolding server_defaults equal trim_space
  server_idem info s =
      rw
        (
          if_empty_idem (codes "musix") s.token refl,
          if_not_positive_idem (pos 2048) s.channel_size refl,
          level_idem info s.log_level,
          if_not_positive_idem (pos 1) s.mux_session refl,
          if_not_positive_idem (pos 75) s.keepalive refl,
          mux_version_idem s.mux_version,
          if_not_positive_idem (pos 32768) s.max_frame_size refl,
          if_not_positive_idem (pos 4194304) s.max_receive_buffer refl,
          if_not_positive_idem (pos 65536) s.max_stream_buffer refl,
          if_empty_idem (codes "backhaul.json") s.sniffer_log refl,
          if_below_one_idem (pos 40) s.heartbeat refl,
          if_below_one_idem (pos 8) s.mux_con refl,
          if_blank_idem (codes "16kb") s.tcp_copy_buffer refl,
        )
        refl

  sni_gateway_idem :
      (g : SniGatewayConfig)
      → sni_gateway_defaults known_level (sni_gateway_defaults known_level g)
        ≡ sni_gateway_defaults known_level g
  unfolding sni_gateway_defaults equal trim_space
  sni_gateway_idem g =
      rw
        (
          if_not_positive_idem (pos 1) g.inspect_timeout refl,
          if_empty_idem (codes "reject") g.default_action refl,
        )
        refl

  http_gateway_idem :
      (g : HttpGatewayConfig)
      → http_gateway_defaults known_level (http_gateway_defaults known_level g)
        ≡ http_gateway_defaults known_level g
  unfolding http_gateway_defaults equal trim_space
  http_gateway_idem g =
      rw
        (
          if_not_positive_idem (pos 1) g.inspect_timeout refl,
          if_not_positive_idem (pos 32768) g.max_header_bytes refl,
          if_empty_idem (codes "reject") g.default_action refl,
        )
        refl

  client_idem :
      known_level (codes "info") ≡ true
      → (c : ClientConfig)
      → client_defaults known_level (client_defaults known_level c) ≡ client_defaults known_level c
  unfolding client_defaults equal trim_space
  client_idem info c =
      rw
        (
          if_empty_idem (codes "musix") c.token refl,
          level_idem info c.log_level,
          if_not_positive_idem (pos 3) c.retry_interval refl,
          if_not_positive_idem (pos 8) c.connection_pool refl,
          if_not_positive_idem (pos 1) c.mux_session refl,
          if_not_positive_idem (pos 75) c.keepalive refl,
          mux_version_idem c.mux_version,
          if_not_positive_idem (pos 32768) c.max_frame_size refl,
          if_not_positive_idem (pos 4194304) c.max_receive_buffer refl,
          if_not_positive_idem (pos 65536) c.max_stream_buffer refl,
          if_empty_idem (codes "backhaul.json") c.sniffer_log refl,
          if_below_one_idem (pos 10) c.dial_timeout refl,
          if_blank_idem (codes "2mb") c.tunnel_tcp_buffer refl,
          if_blank_idem (codes "16kb") c.tcp_copy_buffer refl,
        )
        refl

  -- Where "info" is a level, the defaults applied twice are the defaults applied once.
  pub apply_defaults_idem :
      known_level (codes "info") ≡ true
      → (cfg : Config)
      → apply_defaults known_level (apply_defaults known_level cfg) ≡ apply_defaults known_level cfg
  unfolding apply_defaults
  apply_defaults_idem info cfg =
      rw
        (
          map_idem (server_defaults known_level) (server_idem info) cfg.servers,
          map_idem (sni_gateway_defaults known_level) sni_gateway_idem cfg.sni_gateways,
          map_idem (http_gateway_defaults known_level) http_gateway_idem cfg.http_gateways,
          map_idem (client_defaults known_level) (client_idem info) cfg.clients,
        )
        refl
