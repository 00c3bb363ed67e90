-- ===== src/Net.antt =====
-- The operations of Go's package net that the program calls on addresses: an interface, which the
-- parsers and the access list take as a parameter.
use qoqtun.Prelude.{Bool, Option, Bytes}

pub record Net : Type 1 where
  pub Ip : Type 0
  pub Network : Type 0
  -- `net.ParseIP`, `IP.String`, `IP.To4() != nil`
  pub parse_ip : Bytes → Option Ip
  pub ip_string : Ip → Bytes
  pub is_v4 : Ip → Bool
  -- `net.ParseCIDR`, of which only the network is used, and `IPNet.Contains`
  pub parse_cidr : Bytes → Option Network
  pub contains : Network → Ip → Bool
  pub is_unspecified : Ip → Bool
  pub is_multicast : Ip → Bool
  pub is_link_local_unicast : Ip → Bool
  pub is_link_local_multicast : Ip → Bool
