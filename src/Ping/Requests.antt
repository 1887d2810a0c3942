-- ===== src/Ping/Requests.antt =====
-- The echo requests that are sent: their fields and their checksums.
use protocoale.Base.{ℕ, ◌+◌, ◌%◌, ◌^◌, ◌<◌, ◌≡◌, ◌∙◌, refl, ap, arith, take}
use protocoale.Bytes.{Memory, IsBytes, load16, load32, store8, store16, store32, htons}
use protocoale.Bytes.Copy.{AllBytes, store16-IsBytes, write_bytes-IsBytes}
use protocoale.Router.Checksum.{checksum}
use protocoale.Router.Checksum.Sum16.{sum16-ext}
use protocoale.Router.Checksum.Internet.{checksum-zero_iff}
use protocoale.Router.Layout.Ether
use protocoale.Router.Layout.Ip
use protocoale.Router.Layout.Icmp
use protocoale.Router.Packet.{init_packet, set_check, ip_header_len, icmp_header_len}
use protocoale.Router.Packet.Checks.{set_check-ip, set_check-icmp}
use protocoale.Router.Packet.Reply.{
  store8-IsBytes, store32-IsBytes, set_check-IsBytes, store8_below, store16_below, set_check_below,
}
use protocoale.Ping.{
  Host, init_eth_hdr, ip_start, ip_addressed, icmp_start, complete, request, probe,
}

-- Addresses of the right widths.
pub record IsHost (host : Host) (dest : ℕ) : Type 0 where
  pub own_bytes : AllBytes (take 6 host.own_mac)
  pub gateway_bytes : AllBytes (take 6 host.gateway_mac)
  pub own_width : host.own_ip < 2 ^ 32
  pub dest_width : dest < 2 ^ 32

-- An echo request to `dest` from this machine, with this time to live and sequence number, the
-- Ethernet header of `init_eth_hdr`, and both checksums right.
pub record IsEcho (host : Host) (dest ttl sequence : ℕ) (m : Memory) : Type 0 where
  pub framed : (k : ℕ) → k < 14 → m k ≡ init_eth_hdr host init_packet.payload k
  pub to : load32 m Ip.daddr ≡ dest
  pub from : load32 m Ip.saddr ≡ host.own_ip
  pub lives : m Ip.ttl ≡ ttl
  pub is_icmp : m Ip.protocol ≡ 1
  pub is_echo : (m Icmp.type ≡ 8) × (m Icmp.code ≡ 0)
  pub id : load16 m Icmp.id ≡ host.pid % 2 ^ 16
  pub numbered : htons (load16 m Icmp.sequence) ≡ sequence
  pub whole : htons (load16 m Ip.tot_len) ≡ 28
  pub valid_ip : checksum host.base m Ip.version ip_header_len ≡ 0
  pub valid_icmp : checksum host.base m Icmp.type icmp_header_len ≡ 0

pub init_eth_hdr-IsBytes :
    (host : Host) (dest : ℕ) → IsHost host dest → IsBytes (init_eth_hdr host init_packet.payload)
unfolding init_eth_hdr init_packet
init_eth_hdr-IsBytes host dest h = store16-IsBytes _ Ether.ether_type _ (
    write_bytes-IsBytes _ Ether.shost _
      (write_bytes-IsBytes _ Ether.dhost _ (λ i. omega arith) h.gateway_bytes) h.own_bytes)

module _ (host : Host) (sequence : ℕ) (m : Memory) (bytes : IsBytes m) where
  headed : Memory
  headed = set_check host.base m Ip.version ip_header_len Ip.check

  headed-IsBytes : IsBytes headed
  unfolding headed
  headed-IsBytes = set_check-IsBytes host.base m Ip.version ip_header_len Ip.check bytes

  prepared : Memory
  prepared = icmp_start host sequence headed

  prepared-IsBytes : IsBytes prepared
  unfolding prepared
  prepared-IsBytes = store16-IsBytes _ Icmp.sequence _ (
      store16-IsBytes _ Icmp.id _ (
        store8-IsBytes _ Icmp.code 0
          (store8-IsBytes _ Icmp.type 8 (store8-IsBytes headed Icmp.code 0 headed-IsBytes))))

  complete-IsBytes : IsBytes (complete host sequence m)
  unfolding complete prepared headed
  complete-IsBytes =
      set_check-IsBytes host.base prepared Icmp.type icmp_header_len Icmp.check prepared-IsBytes

  complete-checksum_icmp :
      checksum host.base (complete host sequence m) Icmp.type icmp_header_len ≡ 0
  unfolding complete prepared headed
  complete-checksum_icmp = set_check-icmp host.base prepared prepared-IsBytes

  -- The ICMP header stands behind the IP header.
  complete-headed : (i : ℕ) → i < 34 → complete host sequence m i ≡ headed i
  unfolding complete prepared headed
  complete-headed i h =
      set_check_below host.base _ Icmp.type icmp_header_len Icmp.check i (omega arith)
      ∙ store16_below _ Icmp.sequence _ i (omega arith)
      ∙ store16_below _ Icmp.id _ i (omega arith)
      ∙ store8_below _ Icmp.code 0 i (omega arith)
      ∙ store8_below _ Icmp.type 8 i (omega arith)
      ∙ store8_below _ Icmp.code 0 i (omega arith)

  complete-below : (i : ℕ) → i < 24 → complete host sequence m i ≡ m i
  unfolding headed
  complete-below i h =
      complete-headed i (omega arith)
      ∙ set_check_below host.base m Ip.version ip_header_len Ip.check i (omega arith)

  complete-checksum_ip : checksum host.base (complete host sequence m) Ip.version ip_header_len ≡ 0
  complete-checksum_ip =
      let same =
        sum16-ext (complete host sequence m) headed Ip.version ip_header_len
          (λ i p q. complete-headed i (omega arith)) in
      let good =
        (checksum-zero_iff headed headed-IsBytes host.base Ip.version ip_header_len (omega arith)).0
          (unfold headed in (set_check-ip host.base m bytes)) in
      (checksum-zero_iff (complete host sequence m) complete-IsBytes host.base Ip.version
          ip_header_len (omega arith)).1
        (omega arith)

module _ (host : Host) (dest : ℕ) (valid : IsHost host dest) (m : Memory) (bytes : IsBytes m) where
  addressed-IsBytes : IsBytes (ip_addressed host dest m)
  addressed-IsBytes =
      store32-IsBytes _ Ip.daddr _
        (store32-IsBytes _ Ip.saddr _ (store8-IsBytes m Ip.protocol 1 bytes))

  started-IsBytes : IsBytes (ip_start host m)
  started-IsBytes = store16-IsBytes _ Ip.frag_off 0 (
      store16-IsBytes _ Ip.id _ (
        store16-IsBytes _ Ip.tot_len _
          (store8-IsBytes _ Ip.tos 0 (store8-IsBytes m Ip.version 69 bytes))))

  addresses_of :
      (sequence : ℕ)
      → (load32 (complete host sequence (ip_addressed host dest m)) Ip.daddr ≡ dest)
        × (load32 (complete host sequence (ip_addressed host dest m)) Ip.saddr ≡ host.own_ip)
  unfolding complete set_check store8 store16 store32 load32
  addresses_of sequence = (omega (arith, valid.dest_width), omega (arith, valid.own_width))

icmp_fields :
    (host : Host) (sequence : ℕ) (m : Memory)
    → (complete host sequence m Icmp.type ≡ 8)
      × (complete host sequence m Icmp.code ≡ 0)
      × (load16 (complete host sequence m) Icmp.id ≡ host.pid % 2 ^ 16)
      × (load16 (complete host sequence m) Icmp.sequence ≡ sequence % 2 ^ 16)
unfolding complete set_check store8 store16 load16
icmp_fields host sequence m = (refl, refl, omega arith, omega arith)

htons_twice : (n : ℕ) → htons (htons n % 2 ^ 16) ≡ n % 2 ^ 16
unfolding htons
htons_twice n = omega arith

module _ (host : Host) (dest : ℕ) (valid : IsHost host dest) (m : Memory) (bytes : IsBytes m)
    (framed : (k : ℕ) → k < 14 → m k ≡ init_eth_hdr host init_packet.payload k) where
  pub request-IsBytes : (i : ℕ) → IsBytes (request host dest i m)
  unfolding request
  request-IsBytes i = complete-IsBytes host (htons (i + 1)) _ (
      addressed-IsBytes host dest valid _
        (store8-IsBytes _ Ip.ttl 64 (started-IsBytes host dest valid m bytes)))

  request_fields :
      (i : ℕ)
      → (request host dest i m Ip.ttl ≡ 64)
        × (request host dest i m Ip.protocol ≡ 1)
        × (htons (load16 (request host dest i m) Ip.tot_len) ≡ 28)
  unfolding request complete set_check store8 store16 store32 load16 htons
  request_fields i = (refl, refl, refl)

  request_below :
      (k : ℕ) → k < 14 → ip_addressed host dest (store8 (ip_start host m) Ip.ttl 64) k ≡ m k
  unfolding store8 store16 store32
  request_below k h = ground arith

  pub request-IsEcho : (i : ℕ) → IsEcho host dest 64 ((i + 1) % 2 ^ 16) (request host dest i m)
  unfolding request
  request-IsEcho i =
      let u = ip_addressed host dest (store8 (ip_start host m) Ip.ttl 64) in
      let u-IsBytes =
        addressed-IsBytes host dest valid _
          (store8-IsBytes _ Ip.ttl 64 (started-IsBytes host dest valid m bytes)) in
      let (lives, proto, whole) = request_fields i in
      let (type, code, id, number) = icmp_fields host (htons (i + 1)) u in
      let (to, from) =
        addresses_of host dest valid (store8 (ip_start host m) Ip.ttl 64)
          (store8-IsBytes _ Ip.ttl 64 (started-IsBytes host dest valid m bytes)) (htons (i + 1)) in
      record {
        framed = λ k h.
            complete-below host (htons (i + 1)) u u-IsBytes k (omega arith)
            ∙ request_below k h
            ∙ framed k h;
        to = to;
        from = from;
        lives = lives;
        is_icmp = proto;
        is_echo = (type, code);
        id = id;
        numbered = ap htons number ∙ htons_twice (i + 1);
        whole = whole;
        valid_ip = complete-checksum_ip host (htons (i + 1)) u u-IsBytes;
        valid_icmp = complete-checksum_icmp host (htons (i + 1)) u u-IsBytes;
      }

  pub probe-IsBytes : IsBytes (probe host dest m)
  unfolding probe
  probe-IsBytes = complete-IsBytes host (htons 13) _ (
      addressed-IsBytes host dest valid _
        (started-IsBytes host dest valid _ (store8-IsBytes m Ip.ttl (m Ip.ttl + 1) bytes)))

  probe_fields :
      (probe host dest m Ip.ttl ≡ (m Ip.ttl + 1) % 256)
      × (probe host dest m Ip.protocol ≡ 1)
      × (htons (load16 (probe host dest m) Ip.tot_len) ≡ 28)
  unfolding probe complete set_check store8 store16 store32 load16 htons
  probe_fields = (refl, refl, refl)

  probe_below :
      (k : ℕ)
      → k < 14
      → ip_addressed host dest (ip_start host (store8 m Ip.ttl (m Ip.ttl + 1))) k ≡ m k
  unfolding store8 store16 store32
  probe_below k h = ground arith

  pub probe-IsEcho : IsEcho host dest ((m Ip.ttl + 1) % 256) 13 (probe host dest m)
  unfolding probe
  probe-IsEcho =
      let started = ip_start host (store8 m Ip.ttl (m Ip.ttl + 1)) in
      let u = ip_addressed host dest started in
      let started_bytes =
        started-IsBytes host dest valid _ (store8-IsBytes m Ip.ttl (m Ip.ttl + 1) bytes) in
      let u-IsBytes = addressed-IsBytes host dest valid started started_bytes in
      let (lives, proto, whole) = probe_fields in
      let (type, code, id, number) = icmp_fields host (htons 13) u in
      let (to, from) = addresses_of host dest valid started started_bytes (htons 13) in
      record {
        framed = λ k h.
            complete-below host (htons 13) u u-IsBytes k (omega arith)
            ∙ probe_below k h
            ∙ framed k h;
        to = to;
        from = from;
        lives = lives;
        is_icmp = proto;
        is_echo = (type, code);
        id = id;
        numbered = ap htons number ∙ htons_twice 13;
        whole = whole;
        valid_ip = complete-checksum_ip host (htons 13) u u-IsBytes;
        valid_icmp = complete-checksum_icmp host (htons 13) u u-IsBytes;
      }
