-- ===== src/Config/Laws.antt =====
-- What the configuration promises the rest of the daemon (src/config_mini.cpp).
use obserwrt.Prelude.{
  ℕ, ◌^◌, ◌≤◌, ◌<◌, ◌≡◌, inl, inr, ◌⊎◌, [], true, false, arith, ltb, if◌then◌else◌, Bytes,
  to_string, from_chars-to_string, to_string-ne-nil,
}
use obserwrt.Lifecycle.{Timeouts}
use obserwrt.Config.{
  Ini, Config, Ipfix, Syslog, Result, ok, err, Error, default_config, parse_uint, is_empty,
}

abbrev Ensures {ℓ κ} : {A : Type ℓ} → (A → Type κ) → Result A → Type κ
Ensures P (ok a) = P a
Ensures P (err e) = Unit

pub parse_uint-Ensures :
    (ini : Ini) (sec key : Bytes) (def hi : ℕ) (label : Bytes)
    → def ≤ hi
    → Ensures (λ v. v ≤ hi) (parse_uint ini sec key def hi label)
unfolding parse_uint
parse_uint-Ensures ini sec key def hi label h = ground arith

pub record IsTimeouts (t : Timeouts) : Type 0 where
  pub tcp_le : t.tcp ≤ 86400
  pub udp_le : t.udp ≤ 86400
  pub icmp_le : t.icmp ≤ 86400
  pub general_le : t.general ≤ 86400

-- The bounds that the other components rely on.
pub record IsConfig (c : Config) : Type 0 where
  pub timeouts_bounded : IsTimeouts c.timeouts
  pub max_flows_le : c.max_flows ≤ 2 ^ 30
  pub interval_le : c.prometheus_interval ≤ 86400
  pub collector_port_le : c.ipfix.collector_port ≤ 65535
  pub obs_domain_lt : c.ipfix.obs_domain < 2 ^ 32
  pub syslog_port_le : c.syslog.syslog_port ≤ 65535
  pub has_collector : c.ipfix.enabled ≡ true → is_empty c.ipfix.collector_host ≡ false

abbrev HasIpfixBounds : Ipfix → Type 0
HasIpfixBounds c = (c.collector_port ≤ 65535) × (c.obs_domain < 2 ^ 32)

abbrev HasPortBound : Syslog → Type 0
HasPortBound c = c.syslog_port ≤ 65535

pub default-IsConfig : IsConfig default_config
default-IsConfig = record {
  timeouts_bounded = omega arith;
  max_flows_le = omega arith;
  interval_le = omega arith;
  collector_port_le = omega arith;
  obs_domain_lt = omega arith;
  syslog_port_le = omega arith;
  has_collector = λ on. cc;
}

-- An option holding a number below 2^64 in decimal is read back as that number if it is in range
-- and refused as out of range otherwise; an option that is empty or absent gives the default.
pub parse_uint-to_string :
    (ini : Ini) (sec key : Bytes) (def hi : ℕ) (label : Bytes) (n : ℕ)
    → n < 2 ^ 64
    → (ini sec key ≡ to_string n) ⊎ (ini sec key ≡ [])
    → ((ini sec key ≡ to_string n)
        × (parse_uint ini sec key def hi label
            ≡ (if ltb hi n then err (Error.out_of_range label) else ok n)))
      ⊎ ((ini sec key ≡ []) × (parse_uint ini sec key def hi label ≡ ok def))
unfolding parse_uint
parse_uint-to_string ini sec key def hi label n h (inl e) =
    let (d, ds, p) = to_string-ne-nil n in inl (e, ground (arith, e, p, from_chars-to_string n h))
parse_uint-to_string ini sec key def hi label n h (inr e) = inr (e, ground (arith, e))
