-- ===== src/Net/Address.antt =====
-- `Address`, include/qing/net/address.hpp and src/net/address.cpp. Its members `_ip` and `_port` are
-- written by nothing and read by nothing.
use qing.Common.{
  ℕ, ◌-◌, ◌^◌, ◌==◌, if◌then◌else◌, Option, none, some, List, ◌++◌, length, replicate,
}
use qing.Net.Util.{get_host_by_name}

-- The system's conversions. A text is the list of its characters. `inet_pton` gives the address in
-- network order where the text is one, and `getaddrinfo` its code and the addresses found.
pub record Conversions : Type 0 where
  pub htons : ℕ → ℕ
  pub ntohs : ℕ → ℕ
  pub htonl : ℕ → ℕ
  pub ntohl : ℕ → ℕ
  pub inet_pton : List ℕ → Option ℕ
  pub inet_ntop : ℕ → List ℕ
  pub getaddrinfo : List ℕ → ℕ × List ℕ

-- `_sockAddr`: its `sin_addr.s_addr` and its `sin_port`.
pub record Address : Type 0 where
  pub s_addr : ℕ
  pub sin_port : ℕ

abbrev pub inaddr_any : ℕ
inaddr_any = 0

module _ (net : Conversions) where
  -- `Address(port)`.
  unfoldable pub any_address : ℕ → Address
  any_address port = record { s_addr = net.htonl inaddr_any; sin_port = net.htons port }

  -- `Address(ip, port)`.
  unfoldable pub named_address : List ℕ → ℕ → Address
  named_address ip port = elim (net.inet_pton ip) [
    | some a ↦ record { s_addr = a; sin_port = net.htons port }
    | none ↦
        let ret = get_host_by_name (net.getaddrinfo ip) in
        if ret == 2 ^ 32 - 1
        then record { s_addr = net.htonl inaddr_any; sin_port = net.htons port }
        else record { s_addr = ret; sin_port = net.htons port }
  ]

  unfoldable pub ip : Address → ℕ
  ip a = net.ntohl a.s_addr

  unfoldable pub port : Address → ℕ
  port a = net.ntohs a.sin_port

  -- `ipString`: the whole of the array of 32 characters, which was cleared before.
  unfoldable pub ip_string : Address → List ℕ
  ip_string a = let text = net.inet_ntop a.s_addr in text ++ replicate (32 - length text) 0
