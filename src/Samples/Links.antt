-- ===== src/Samples/Links.antt =====
-- config/example.yaml, the links of the router, its policy routing and its forwards.
use regied.Prelude.{none, some, true, false, [], ◌∷◌, pos}
use regied.Api.Netip.{addr4, no_addr, no_prefix}
use regied.Api.Document.{
  Resource, a_forward, a_route_policy, a_session, a_source_nat, a_tunnel, an_interface,
}

abbrev pub wan_interface : Resource
wan_interface = record {
  name = "wan";
  spec = an_interface (record {
    ifname = "eth0";
    bridge = none;
    mtu = pos 0;
    wake_on_lan = none;
    addresses = [];
    routes = [];
    dhcpv6 = some (record {
      prefix_delegation = some (record {
        duid_file = "/etc/regied/secrets/dhcpv6-duid";
        prefix_length = some (pos 56);
        rapid_commit = some true;
        iaid = some 0;
        send_release = some false;
      });
      use_dns = some false;
    });
    ipv6 = none;
  });
  line = 44;
}

abbrev pub lan_interface : Resource
lan_interface = record {
  name = "lan";
  spec = an_interface (record {
    ifname = "br-lan";
    bridge = some (record { members = (("eth1") ∷ ("eth2") ∷ ("eth3") ∷ []) });
    mtu = pos 1500;
    wake_on_lan = none;
    addresses =
        ((record {
          literal = record { addr = addr4 3232238081; bits_plus_one = 25 };
          from_delegated_prefix = none;
          from_router_advertisement = none;
        })
          ∷ (record {
            literal = no_prefix;
            from_delegated_prefix =
                some (record { interface_ref = "wan"; subnet_id = some (pos 1); token = "::1" });
            from_router_advertisement = none;
          })
          ∷ []);
    routes =
        ((record {
          destination = record {
            literal = record { addr = addr4 2886729728; bits_plus_one = 17 };
            from_delegated_prefix = none;
          };
          via = some (record { literal = addr4 3232238090; from_delegated_prefix = none });
          metric = none;
        })
          ∷ (record {
            destination = record {
              literal = no_prefix;
              from_delegated_prefix =
                  some (record { interface_ref = "wan"; subnet_id = some (pos 2); token = "" });
            };
            via = some (record {
              literal = no_addr;
              from_delegated_prefix =
                  some (record { interface_ref = "wan"; subnet_id = some (pos 1); token = "::10" });
            });
            metric = none;
          })
          ∷ []);
    dhcpv6 = none;
    ipv6 = some (record {
      advertise = some (record {
        mode = "slaac";
        other_information = some true;
        dns_servers = [];
        valid_lifetime = 86400000000000;
        preferred_lifetime = 0;
      });
      advertised_delegation = none;
    });
  });
  line = 61;
}

abbrev pub session : Resource
session = record {
  name = "pppoe0";
  spec = a_session (record {
    interface_ref = "wan";
    user_id_file = "/etc/regied/secrets/pppoe-user-id";
    password_file = "/etc/regied/secrets/pppoe-password";
    mtu = pos 1454;
    persist = some true;
    holdoff = 0;
    use_dns = some false;
    default_route = some (record { install = some true; metric = some (pos 100) });
    routes = [];
  });
  line = 103;
}

abbrev pub tunnel : Resource
tunnel = record {
  name = "dslite";
  spec = a_tunnel (record {
    underlay_ref = "wan";
    local_address_from = some (record { interface_ref = "lan" });
    local_address = none;
    aftr_host = "aftr.example.net";
    aftr_address = none;
    mtu = pos 1454;
    ttl = some (pos 64);
    default_route = some (record { install = some true; metric = some (pos 0) });
    routes = [];
  });
  line = 124;
}

abbrev pub upper_half_via_pppoe : Resource
upper_half_via_pppoe = record {
  name = "upper-half-via-pppoe";
  spec = a_route_policy (record {
    family = "ipv4";
    priority = some (pos 10);
    egress_ref = "pppoe0";
    source_ranges =
        ((record { prefix = no_prefix; from = addr4 3232238208; to = addr4 3232238335 }) ∷ []);
    source_address_set_refs = [];
    exclude_destinations =
        ((record { addr = addr4 3232238080; bits_plus_one = 25 })
          ∷ (record { addr = addr4 2886729728; bits_plus_one = 17 })
          ∷ []);
    table = none;
    mark = none;
  });
  line = 156;
}

abbrev pub rest_via_dslite : Resource
rest_via_dslite = record {
  name = "rest-via-dslite";
  spec = a_route_policy (record {
    family = "ipv4";
    priority = some (pos 20);
    egress_ref = "dslite";
    source_ranges =
        ((record {
          prefix = record { addr = addr4 3232238080; bits_plus_one = 25 };
          from = no_addr;
          to = no_addr;
        })
          ∷ []);
    source_address_set_refs = [];
    exclude_destinations =
        ((record { addr = addr4 3232238080; bits_plus_one = 25 })
          ∷ (record { addr = addr4 2886729728; bits_plus_one = 17 })
          ∷ []);
    table = none;
    mark = none;
  });
  line = 168;
}

abbrev pub masquerade : Resource
masquerade = record {
  name = "masquerade-pppoe";
  spec = a_source_nat (record {
    kind = "masquerade";
    egress_ref = "pppoe0";
    source_ranges = ((record { addr = addr4 3232238080; bits_plus_one = 25 }) ∷ []);
    exclude_destinations = [];
  });
  line = 186;
}

abbrev pub https_forward : Resource
https_forward = record {
  name = "https";
  spec = a_forward (record {
    egress_ref = "pppoe0";
    protocol = record { name = "tcp"; number = 0 };
    port = some 443;
    port_range = none;
    target = some (record { address = addr4 3232238280; port = some 443; port_range = none });
    hairpin = none;
    open_firewall = none;
  });
  line = 204;
}

abbrev pub ssh_forward : Resource
ssh_forward = record {
  name = "ssh";
  spec = a_forward (record {
    egress_ref = "pppoe0";
    protocol = record { name = "tcp"; number = 0 };
    port = some 10022;
    port_range = none;
    target = some (record { address = addr4 3232238280; port = some 22; port_range = none });
    hairpin = none;
    open_firewall = none;
  });
  line = 214;
}

abbrev pub mosh_forward : Resource
mosh_forward = record {
  name = "mosh";
  spec = a_forward (record {
    egress_ref = "pppoe0";
    protocol = record { name = "udp"; number = 0 };
    port = none;
    port_range = some (record { from = 60000; to = 60010 });
    target = some (record { address = addr4 3232238290; port = none; port_range = none });
    hairpin = none;
    open_firewall = none;
  });
  line = 225;
}
