-- ===== src/Samples/Services.antt =====
-- config/example.yaml, the records, the firewall and what dnsmasq serves.
use regied.Prelude.{none, some, true, false, [], ◌∷◌, pos}
use regied.Api.Netip.{addr4, addr6, no_addr, no_prefix}
use regied.Api.Serving.{delegated}
use regied.Api.Document.{
  Resource, a_dhcp_server, a_forwarder, a_policy, a_record_set, a_zone, an_address_set,
}

abbrev pub example_com : Resource
example_com = record {
  name = "example-com";
  spec = a_record_set (record {
    provider = "cloudflare";
    zone = "example.com";
    api_token_file = "/etc/regied/secrets/cloudflare-example-com";
    records =
        ((record {
          names = (("example.com") ∷ ("*.example.com") ∷ []);
          kind = "A";
          egress_ref = "pppoe0";
          address = none;
          proxied = some false;
          ttl = 0;
        })
          ∷ (record {
            names = (("example.com") ∷ ("*.example.com") ∷ []);
            kind = "AAAA";
            egress_ref = "";
            address = some (
                delegated
                  (record { interface_ref = "wan"; subnet_id = some (pos 1); token = "::200" }));
            proxied = none;
            ttl = 0;
          })
          ∷ []);
  });
  line = 252;
}

abbrev pub example_net : Resource
example_net = record {
  name = "example-net";
  spec = a_record_set (record {
    provider = "cloudflare";
    zone = "example.net";
    api_token_file = "/etc/regied/secrets/cloudflare-example-net";
    records =
        ((record {
          names = (("example.net") ∷ ("*.example.net") ∷ []);
          kind = "A";
          egress_ref = "pppoe0";
          address = none;
          proxied = some true;
          ttl = 0;
        })
          ∷ []);
  });
  line = 290;
}

abbrev pub wan_zone : Resource
wan_zone = record {
  name = "wan";
  spec = a_zone (record { link_refs = (("wan") ∷ ("pppoe0") ∷ ("dslite") ∷ []) });
  line = 316;
}

abbrev pub lan_zone : Resource
lan_zone = record {
  name = "lan";
  spec = a_zone (record { link_refs = (("lan") ∷ []) });
  line = 321;
}

abbrev pub published_set : Resource
published_set = record {
  name = "published-v6";
  spec = an_address_set (record {
    family = "ipv6";
    addresses =
        ((record {
          literal = no_addr;
          from_delegated_prefix =
              some (record { interface_ref = "wan"; subnet_id = some (pos 1); token = "::200" });
        })
          ∷ (record {
            literal = no_addr;
            from_delegated_prefix =
                some (record { interface_ref = "wan"; subnet_id = some (pos 1); token = "::210" });
          })
          ∷ []);
    networks =
        ((record {
          literal = no_prefix;
          from_delegated_prefix =
              some (record { interface_ref = "wan"; subnet_id = some (pos 2); token = "" });
        })
          ∷ []);
  });
  line = 332;
}

abbrev pub wan_to_self : Resource
wan_to_self = record {
  name = "wan-to-self";
  spec = a_policy (record {
    from = "wan";
    to = "self";
    default_action = "drop";
    log_default = some true;
    stateful = none;
    rules =
        ((record {
          name = "icmp";
          action = "accept";
          family = "ipv4";
          protocol = some (record { name = "icmp"; number = 0 });
          source_cidrs = [];
          source_address_set_refs = [];
          source_ports = [];
          destination_cidrs = [];
          destination_address_set_refs = [];
          destination_ports = [];
          log = none;
        })
          ∷ (record {
            name = "icmpv6";
            action = "accept";
            family = "ipv6";
            protocol = some (record { name = "icmpv6"; number = 0 });
            source_cidrs = [];
            source_address_set_refs = [];
            source_ports = [];
            destination_cidrs = [];
            destination_address_set_refs = [];
            destination_ports = [];
            log = none;
          })
          ∷ (record {
            name = "dhcpv6-client";
            action = "accept";
            family = "ipv6";
            protocol = some (record { name = "udp"; number = 0 });
            source_cidrs = [];
            source_address_set_refs = [];
            source_ports = [];
            destination_cidrs = [];
            destination_address_set_refs = [];
            destination_ports = ((record { from = 546; to = 546 }) ∷ []);
            log = none;
          })
          ∷ (record {
            name = "dslite-inbound";
            action = "accept";
            family = "ipv6";
            protocol = some (record { name = "ipip"; number = 0 });
            source_cidrs = [];
            source_address_set_refs = [];
            source_ports = [];
            destination_cidrs = [];
            destination_address_set_refs = [];
            destination_ports = [];
            log = none;
          })
          ∷ []);
  });
  line = 342;
}

abbrev pub wan_to_lan : Resource
wan_to_lan = record {
  name = "wan-to-lan";
  spec = a_policy (record {
    from = "wan";
    to = "lan";
    default_action = "drop";
    log_default = some true;
    stateful = none;
    rules =
        ((record {
          name = "published-web";
          action = "accept";
          family = "ipv6";
          protocol = some (record { name = "tcp"; number = 0 });
          source_cidrs = [];
          source_address_set_refs = [];
          source_ports = [];
          destination_cidrs = [];
          destination_address_set_refs = (("published-v6") ∷ []);
          destination_ports =
              ((record { from = 80; to = 80 }) ∷ (record { from = 443; to = 443 }) ∷ []);
          log = none;
        })
          ∷ (record {
            name = "published-mosh";
            action = "accept";
            family = "ipv6";
            protocol = some (record { name = "udp"; number = 0 });
            source_cidrs = [];
            source_address_set_refs = [];
            source_ports = [];
            destination_cidrs = [];
            destination_address_set_refs = (("published-v6") ∷ []);
            destination_ports = ((record { from = 60000; to = 60010 }) ∷ []);
            log = none;
          })
          ∷ []);
  });
  line = 371;
}

abbrev pub lan_to_wan : Resource
lan_to_wan = record {
  name = "lan-to-wan";
  spec = a_policy (record {
    from = "lan";
    to = "wan";
    default_action = "accept";
    log_default = none;
    stateful = none;
    rules = [];
  });
  line = 392;
}

abbrev pub lan_to_self : Resource
lan_to_self = record {
  name = "lan-to-self";
  spec = a_policy (record {
    from = "lan";
    to = "self";
    default_action = "accept";
    log_default = none;
    stateful = none;
    rules = [];
  });
  line = 399;
}

abbrev pub dhcp_server : Resource
dhcp_server = record {
  name = "lan";
  spec = a_dhcp_server (record {
    interface_ref = "lan";
    subnet = record { addr = addr4 3232238080; bits_plus_one = 25 };
    pool = some (record { start = addr4 3232238144; end = addr4 3232238207 });
    lease_time = 86400000000000;
    gateway = none;
    dns_servers = [];
    domain = "";
    static_mappings =
        ((record {
          name = "host-a";
          mac_address = ((0) ∷ (0) ∷ (94) ∷ (0) ∷ (83) ∷ (1) ∷ []);
          address = addr4 3232238280;
        })
          ∷ (record {
            name = "host-b";
            mac_address = ((0) ∷ (0) ∷ (94) ∷ (0) ∷ (83) ∷ (2) ∷ []);
            address = addr4 3232238290;
          })
          ∷ (record {
            name = "host-c";
            mac_address = ((0) ∷ (0) ∷ (94) ∷ (0) ∷ (83) ∷ (3) ∷ []);
            address = addr4 3232238100;
          })
          ∷ []);
    ipv6 = some (record {
      mode = "stateless";
      dns_servers = [];
      information_refresh_time = 21600000000000;
    });
  });
  line = 413;
}

abbrev pub forwarder : Resource
forwarder = record {
  name = "lan";
  spec = a_forwarder (record {
    listen_on = (("lan") ∷ ("loopback") ∷ []);
    cache_size = some (pos 150);
    upstreams = ((addr4 3221226037) ∷ (addr6 42540766490509546445348707916023070803 "") ∷ []);
    conditional =
        ((record { domain = "cluster.example"; servers = ((addr4 2886729781) ∷ []) }) ∷ []);
    static_hosts = ((record { name = "service.example.com"; address = addr4 3232238280 }) ∷ []);
  });
  line = 440;
}
