-- ===== src/Samples/Router.antt =====
-- config/example.yaml as a whole, and internal/render/nftables/testdata/example.nft, which it renders to.
use regied.Prelude.{some, true, false, [], ◌∷◌, pos, String, ◌⋅◌}
use regied.Api.Document.{NetworkConfig}
use regied.Samples.Links.{
  wan_interface, lan_interface, session, tunnel, upper_half_via_pppoe, rest_via_dslite, masquerade,
  https_forward, ssh_forward, mosh_forward,
}
use regied.Samples.Services.{
  example_com, example_net, wan_zone, lan_zone, published_set, wan_to_self, wan_to_lan, lan_to_wan,
  lan_to_self, dhcp_server, forwarder,
}

abbrev pub router : NetworkConfig
router = record {
  name = "example";
  global = record {
    ip_forwarding = some true;
    syn_cookies = some true;
    log_martians = some true;
    send_redirects = some false;
    receive_redirects = some false;
    source_validation = some false;
    mss_clamp = record { mode = "auto"; value = pos 0 };
  };
  resources =
      wan_interface ∷ lan_interface ∷ session ∷ tunnel ∷ upper_half_via_pppoe ∷ rest_via_dslite
      ∷ masquerade ∷ https_forward ∷ ssh_forward ∷ mosh_forward ∷ example_com ∷ example_net
      ∷ wan_zone ∷ lan_zone ∷ published_set ∷ wan_to_self ∷ wan_to_lan ∷ lan_to_wan ∷ lan_to_self
      ∷ dhcp_server ∷ forwarder ∷ [];
}

abbrev pub golden : String
golden =
    "# regied's nftables ruleset. Generated on every apply; edits here do not survive one.\n"
    ⋅ "#\n"
    ⋅ "# regied owns this one table and nothing else in the ruleset, so the ruleset is never\n"
    ⋅ "# flushed and no rule anybody else installed is touched (ADR 0009). The two statements\n"
    ⋅ "# below add the table if it is not already there and then remove it, so that the one\n"
    ⋅ "# that follows goes in whether or not a previous apply left anything behind. nft runs\n"
    ⋅ "# the whole file as a single transaction, so the table is never half replaced.\n" ⋅ "#\n"
    ⋅ "# The uplink sets below are empty here on purpose. What a line is holding is runtime\n"
    ⋅ "# state, so it is never rendered: the apply seeds these sets from the kernel and pppd's\n"
    ⋅ "# hooks keep them, and the hairpin rules match on the set rather than on an address\n"
    ⋅ "# (ADR 0015).\n" ⋅ "\n" ⋅ "table inet regied\n" ⋅ "delete table inet regied\n" ⋅ "\n"
    ⋅ "table inet regied {\n" ⋅ "\t# FirewallZone \"lan\"\n" ⋅ "\tset zone_lan {\n"
    ⋅ "\t\ttype ifname\n" ⋅ "\t\telements = { \"br-lan\" }\n" ⋅ "\t}\n" ⋅ "\n"
    ⋅ "\t# FirewallZone \"wan\"\n" ⋅ "\tset zone_wan {\n" ⋅ "\t\ttype ifname\n"
    ⋅ "\t\telements = { \"dslite\", \"eth0\", \"pppoe0\" }\n" ⋅ "\t}\n" ⋅ "\n"
    ⋅ "\t# IPAddressSet \"published-v6\": elements written at runtime, from the delegated prefix\n"
    ⋅ "\tset addrset_published-v6 {\n" ⋅ "\t\ttype ipv6_addr\n" ⋅ "\t\tflags interval\n" ⋅ "\t}\n"
    ⋅ "\n" ⋅ "\t# DSLiteTunnel \"dslite\", IPv4: what the link is holding\n"
    ⋅ "\tset uplink4_dslite {\n" ⋅ "\t\ttype ipv4_addr\n" ⋅ "\t}\n" ⋅ "\n"
    ⋅ "\t# DSLiteTunnel \"dslite\", IPv6: what the link is holding\n" ⋅ "\tset uplink6_dslite {\n"
    ⋅ "\t\ttype ipv6_addr\n" ⋅ "\t}\n" ⋅ "\n"
    ⋅ "\t# PPPoESession \"pppoe0\", IPv4: what the link is holding\n" ⋅ "\tset uplink4_pppoe0 {\n"
    ⋅ "\t\ttype ipv4_addr\n" ⋅ "\t}\n" ⋅ "\n"
    ⋅ "\t# PPPoESession \"pppoe0\", IPv6: what the link is holding\n" ⋅ "\tset uplink6_pppoe0 {\n"
    ⋅ "\t\ttype ipv6_addr\n" ⋅ "\t}\n" ⋅ "\n" ⋅ "\t# FirewallPolicy \"lan-to-self\": lan to self\n"
    ⋅ "\tchain policy_lan-to-self {\n" ⋅ "\t\tct state established,related counter accept\n"
    ⋅ "\t\tct state invalid counter drop\n" ⋅ "\t\tcounter accept comment \"lan-to-self default\"\n"
    ⋅ "\t}\n" ⋅ "\n" ⋅ "\t# FirewallPolicy \"lan-to-wan\": lan to wan\n"
    ⋅ "\tchain policy_lan-to-wan {\n" ⋅ "\t\tct state established,related counter accept\n"
    ⋅ "\t\tct state invalid counter drop\n" ⋅ "\t\tcounter accept comment \"lan-to-wan default\"\n"
    ⋅ "\t}\n" ⋅ "\n" ⋅ "\t# FirewallPolicy \"wan-to-lan\": wan to lan\n"
    ⋅ "\tchain policy_wan-to-lan {\n" ⋅ "\t\tct state established,related counter accept\n"
    ⋅ "\t\tct state invalid counter drop\n"
    ⋅ "\t\tmeta nfproto ipv6 meta l4proto tcp ip6 daddr @addrset_published-v6 tcp dport { 80, 443 } counter accept comment \"published-web\"\n"
    ⋅ "\t\tmeta nfproto ipv6 meta l4proto udp ip6 daddr @addrset_published-v6 udp dport 60000-60010 counter accept comment \"published-mosh\"\n"
    ⋅ "\t\tlog prefix \"regied wan-to-lan default \" counter drop comment \"wan-to-lan default\"\n"
    ⋅ "\t}\n" ⋅ "\n" ⋅ "\t# FirewallPolicy \"wan-to-self\": wan to self\n"
    ⋅ "\tchain policy_wan-to-self {\n" ⋅ "\t\tct state established,related counter accept\n"
    ⋅ "\t\tct state invalid counter drop\n"
    ⋅ "\t\tmeta nfproto ipv4 meta l4proto icmp counter accept comment \"icmp\"\n"
    ⋅ "\t\tmeta nfproto ipv6 meta l4proto ipv6-icmp counter accept comment \"icmpv6\"\n"
    ⋅ "\t\tmeta nfproto ipv6 meta l4proto udp udp dport 546 counter accept comment \"dhcpv6-client\"\n"
    ⋅ "\t\tmeta nfproto ipv6 meta l4proto 4 counter accept comment \"dslite-inbound\"\n"
    ⋅ "\t\tlog prefix \"regied wan-to-self default \" counter drop comment \"wan-to-self default\"\n"
    ⋅ "\t}\n" ⋅ "\n"
    ⋅ "\t# which uplink a packet leaves by. First the reply to a port forward, which goes\n"
    ⋅ "\t# back by the uplink the connection arrived on: the mark saved on the connection\n"
    ⋅ "\t# is restored ahead of every policy. Then the matching half of policy routing.\n"
    ⋅ "\t# It runs after nat prerouting, so a packet a port forward readdressed to a host\n"
    ⋅ "\t# inside already carries that address when the exclusions below are considered,\n"
    ⋅ "\t# and stays local. Nothing here has to know the uplink's global address\n"
    ⋅ "\tchain prerouting_mark {\n"
    ⋅ "\t\ttype filter hook prerouting priority filter; policy accept;\n"
    ⋅ "\t\tct direction reply ct mark != 0 meta mark set ct mark return comment \"PortForward: a reply leaves by the uplink the connection arrived on\"\n"
    ⋅ "\t\tiifname \"pppoe0\" meta nfproto ipv4 ct state new ct status dnat ct mark set 0x102 comment \"PortForward: replies leave by pppoe0\"\n"
    ⋅ "\t\tip saddr 192.168.10.128-192.168.10.255 ip daddr != { 172.16.0.0/16, 192.168.10.0/24 } meta mark set 0x100 return comment \"EgressRoutePolicy/upper-half-via-pppoe\"\n"
    ⋅ "\t\tip saddr 192.168.10.0/24 ip daddr != { 172.16.0.0/16, 192.168.10.0/24 } meta mark set 0x101 return comment \"EgressRoutePolicy/rest-via-dslite\"\n"
    ⋅ "\t}\n" ⋅ "\n"
    ⋅ "\t# port forwards. This runs before the chain that marks, which is what lets a\n"
    ⋅ "\t# hairpinned connection fall out of a policy's local exclusion\n"
    ⋅ "\tchain prerouting_nat {\n"
    ⋅ "\t\ttype nat hook prerouting priority dstnat; policy accept;\n"
    ⋅ "\t\tiifname \"pppoe0\" meta nfproto ipv4 tcp dport 443 dnat ip to 192.168.10.200:443 comment \"PortForward/https\"\n"
    ⋅ "\t\tiifname != \"pppoe0\" meta nfproto ipv4 ip daddr @uplink4_pppoe0 tcp dport 443 dnat ip to 192.168.10.200:443 comment \"PortForward/https\"\n"
    ⋅ "\t\tiifname \"pppoe0\" meta nfproto ipv4 udp dport 60000-60010 dnat ip to 192.168.10.210:60000-60010 comment \"PortForward/mosh\"\n"
    ⋅ "\t\tiifname != \"pppoe0\" meta nfproto ipv4 ip daddr @uplink4_pppoe0 udp dport 60000-60010 dnat ip to 192.168.10.210:60000-60010 comment \"PortForward/mosh\"\n"
    ⋅ "\t\tiifname \"pppoe0\" meta nfproto ipv4 tcp dport 10022 dnat ip to 192.168.10.200:22 comment \"PortForward/ssh\"\n"
    ⋅ "\t\tiifname != \"pppoe0\" meta nfproto ipv4 ip daddr @uplink4_pppoe0 tcp dport 10022 dnat ip to 192.168.10.200:22 comment \"PortForward/ssh\"\n"
    ⋅ "\t}\n" ⋅ "\n"
    ⋅ "\t# translation on the way out: the hairpin half of a port forward, then the\n"
    ⋅ "\t# source translation each uplink asked for\n" ⋅ "\tchain postrouting_nat {\n"
    ⋅ "\t\ttype nat hook postrouting priority srcnat; policy accept;\n"
    ⋅ "\t\tiifname != \"pppoe0\" ct status dnat meta nfproto ipv4 ip daddr 192.168.10.200 tcp dport 443 masquerade comment \"PortForward/https\"\n"
    ⋅ "\t\tiifname != \"pppoe0\" ct status dnat meta nfproto ipv4 ip daddr 192.168.10.210 udp dport 60000-60010 masquerade comment \"PortForward/mosh\"\n"
    ⋅ "\t\tiifname != \"pppoe0\" ct status dnat meta nfproto ipv4 ip daddr 192.168.10.200 tcp dport 22 masquerade comment \"PortForward/ssh\"\n"
    ⋅ "\t\toifname \"pppoe0\" ip saddr 192.168.10.0/24 masquerade comment \"SourceNAT/masquerade-pppoe\"\n"
    ⋅ "\t}\n" ⋅ "\n"
    ⋅ "\t# clamp the segment size on every path whose MTU is lower. The masked flags match\n"
    ⋅ "\t# the SYN and the SYN-ACK, so both ends are told\n" ⋅ "\tchain forward_mss {\n"
    ⋅ "\t\ttype filter hook forward priority mangle; policy accept;\n"
    ⋅ "\t\ttcp flags syn / syn,rst tcp option maxseg size set rt mtu\n" ⋅ "\t}\n" ⋅ "\n"
    ⋅ "\t# traffic addressed to the host. A zone with no policy to self is dropped\n"
    ⋅ "\tchain input {\n" ⋅ "\t\ttype filter hook input priority filter; policy drop;\n"
    ⋅ "\t\t# the host talking to itself\n" ⋅ "\t\tiif \"lo\" counter accept\n"
    ⋅ "\t\tiifname @zone_lan jump policy_lan-to-self\n"
    ⋅ "\t\tiifname @zone_wan jump policy_wan-to-self\n" ⋅ "\t}\n" ⋅ "\n"
    ⋅ "\t# traffic passing through. A pair of zones with no policy is dropped\n"
    ⋅ "\tchain forward {\n" ⋅ "\t\ttype filter hook forward priority filter; policy drop;\n"
    ⋅ "\t\tct status dnat meta nfproto ipv4 ip daddr 192.168.10.200 tcp dport 443 counter accept comment \"PortForward/https\"\n"
    ⋅ "\t\tct status dnat meta nfproto ipv4 ip saddr 192.168.10.200 tcp sport 443 counter accept comment \"PortForward/https\"\n"
    ⋅ "\t\tct status dnat meta nfproto ipv4 ip daddr 192.168.10.210 udp dport 60000-60010 counter accept comment \"PortForward/mosh\"\n"
    ⋅ "\t\tct status dnat meta nfproto ipv4 ip saddr 192.168.10.210 udp sport 60000-60010 counter accept comment \"PortForward/mosh\"\n"
    ⋅ "\t\tct status dnat meta nfproto ipv4 ip daddr 192.168.10.200 tcp dport 22 counter accept comment \"PortForward/ssh\"\n"
    ⋅ "\t\tct status dnat meta nfproto ipv4 ip saddr 192.168.10.200 tcp sport 22 counter accept comment \"PortForward/ssh\"\n"
    ⋅ "\t\tiifname @zone_lan oifname @zone_wan jump policy_lan-to-wan\n"
    ⋅ "\t\tiifname @zone_wan oifname @zone_lan jump policy_wan-to-lan\n" ⋅ "\t}\n" ⋅ "}\n"
